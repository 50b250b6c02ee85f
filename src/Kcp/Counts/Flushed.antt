-- ===== src/Kcp/Counts/Flushed.antt =====
-- Flush keeps the counters right, and it ends.
use golang_tools.Base.{
  ℕ, zero, suc, ◌+◌, ◌*◌, ◌/◌, ◌%◌, ◌^◌, ◌≡◌, refl, sym, ap, ◌∙◌, inl, inr, ltb, leb, ◌==◌,
  if◌then◌else◌, Bool, ◌||◌, List, [], ◌∷◌, length, length-append, get_elem?, Option-cases, if-elim,
}
use golang_tools.Base.Word.{add32, sub32, mul32, to_u32}
use golang_tools.Base.Run.{Run, done, panic, stuck, after, Ensures, Panics, Ensures-after}
use golang_tools.Kcp.Define.{Segment, Kcp, overhead, ask_send, ask_tell, thresh_min}
use golang_tools.Kcp.Seg.{encode, encode-Panics, Bytes}
use golang_tools.Kcp.Due.{Plan, judge}
use golang_tools.Kcp.Flush.{
  Flushing, output, make_room, append_header, ack_at, flush_acks, probe_timer, flush_probe, stamped,
  move_queue, send_copy, flush_buf, shrink_windows, send_window, ack_segment, flush_segments, flush,
}
use golang_tools.Kcp.Counts.{AreCounted, counts_more, counts_less}

-- A step of Flush ends, and if it returns, the counters are right.
abbrev Counts : {A : Type 0} → Run Flushing A → Type 0
Counts = Ensures (λ s _. AreCounted s.kcp)

then-Counts :
    {A B : Type 0} (m : Run Flushing A) (f : Flushing → A → Run Flushing B)
    → Counts m
    → ((s : Flushing) (a : A) → AreCounted s.kcp → Counts (f s a))
    → Counts (after m f)
then-Counts m f h k = Ensures-after (λ s _. AreCounted s.kcp) (λ s _. AreCounted s.kcp) m f h k

either-Counts :
    {A : Type 0} (b : Bool) (x y : Run Flushing A)
    → Counts x
    → Counts y
    → Counts (if b then x else y)
either-Counts b x y hx hy = if-elim Counts b x y (λ _. hx) (λ _. hy)

output-Counts : (s : Flushing) → AreCounted s.kcp → Counts (output s)
output-Counts s h = either-Counts s.kcp.output_set _ _ h tt

make_room-Counts : (need : ℕ) (s : Flushing) → AreCounted s.kcp → Counts (make_room need s)
make_room-Counts need s h =
    either-Counts (ltb s.kcp.mtu (length s.buffer + need)) _ _ (output-Counts s h) h

append_header-Counts :
    (seg : Segment) (s : Flushing) → AreCounted s.kcp → Counts (append_header seg s)
append_header-Counts seg s h = by_encode (encode seg) refl (encode-Panics seg)
  where
    by_encode : (r : Run Bytes (List ℕ)) → encode seg ≡ r → Panics r → Counts (append_header seg s)
    by_encode (done b bs) e p = elim p [ ]
    by_encode (panic x b) e p = rw (e, append_header) tt
    by_encode stuck e p = elim p [ ]

ack_at-Counts : (i : ℕ) (s : Flushing) → AreCounted s.kcp → Counts (ack_at i s)
ack_at-Counts i s h = elim (Option-cases (get_elem? s.kcp.ack_list i)) [
  | inl e ↦ rw (e, ack_at) tt
  | inr (x, e) ↦ rw (e, ack_at) h
]

flush_acks-Counts :
    (rounds i : ℕ) (seg : Segment) (s : Flushing)
    → AreCounted s.kcp
    → Counts (flush_acks rounds i seg s)
unfolding flush_acks
flush_acks-Counts zero i seg s h = h
flush_acks-Counts (suc rounds) i seg s h =
    then-Counts (make_room overhead s) _ (make_room-Counts overhead s h) λ s1 x1 h1.
      then-Counts (ack_at (i * 2) s1) _ (ack_at-Counts _ s1 h1) λ s2 sn h2.
        then-Counts (ack_at (i * 2 + 1) s2) _ (ack_at-Counts _ s2 h2) λ s3 ts h3.
          then-Counts (append_header _ s3) _ (append_header-Counts _ s3 h3)
            λ s4 x4 h4. flush_acks-Counts rounds (suc i) _ s4 h4

flush_probe-Counts : (seg : Segment) (s : Flushing) → AreCounted s.kcp → Counts (flush_probe seg s)
unfolding flush_probe
flush_probe-Counts seg s h =
    either-Counts (s.kcp.probe == ask_send || s.kcp.probe == ask_tell) _ _
      (then-Counts (make_room overhead s) _ (make_room-Counts overhead s h) λ s1 x1 h1.
        then-Counts (append_header _ s1) _ (append_header-Counts _ s1 h1) λ s2 x2 h2. h2)
      h

move_queue-AreCounted :
    (cwnd wnd : ℕ) (segs : List Segment) (k : Kcp)
    → k.snd_queue ≡ segs
    → AreCounted k
    → AreCounted (move_queue cwnd wnd segs k)
unfolding move_queue
move_queue-AreCounted cwnd wnd [] k e h = h
move_queue-AreCounted cwnd wnd (seg ∷ segs) k e (sq, rq, sb, rb) =
    if-elim AreCounted (ltb k.snd_nxt (add32 k.snd_una cwnd)) _ _
      (λ _. move_queue-AreCounted cwnd wnd segs _ refl (
        counts_less (length segs) k.nsnd_que (sq ∙ ap (λ xs. length xs % 2 ^ 32) e),
        rq,
        counts_more (length k.snd_buf) k.nsnd_buf sb
            ∙ ap (λ n. n % 2 ^ 32) (sym (length-append k.snd_buf (stamped wnd k seg ∷ []))),
        rb,
      ))
      (λ _. (sq, rq, sb, rb))

send_copy-Counts :
    (wnd : ℕ) (copy : Segment) (s : Flushing) → AreCounted s.kcp → Counts (send_copy wnd copy s)
send_copy-Counts wnd copy s h = then-Counts (make_room _ s) _ (make_room-Counts _ s h) λ s1 x1 h1.
    then-Counts (append_header _ s1) _ (append_header-Counts _ s1 h1) λ s2 x2 h2.
      if-elim (λ (t : Flushing). AreCounted t.kcp) (leb _ copy.xmit) _ _
        (λ _. if-elim (λ (t : Flushing). AreCounted t.kcp) (ltb 0 copy.len) _ _ (λ _. h2) (λ _. h2))
        (λ _. if-elim (λ (t : Flushing). AreCounted t.kcp) (ltb 0 copy.len) _ _ (λ _. h2) (λ _. h2))

flush_buf-Counts :
    (wnd : ℕ) (p : Plan) (segs : List Segment) (s : Flushing)
    → AreCounted s.kcp
    → Counts (flush_buf wnd p segs s)
unfolding flush_buf
flush_buf-Counts wnd p [] s h = h
flush_buf-Counts wnd p (seg ∷ segs) s h =
    let v = judge s.kcp p seg in
    then-Counts (if v.need_send then send_copy wnd v.seg _ else done _ tt) _
      (either-Counts v.need_send _ _ (send_copy-Counts wnd v.seg _ h) h)
      λ s2 x h2. flush_buf-Counts wnd v.plan segs s2 h2

shrink_windows-AreCounted :
    (cwnd : ℕ) (p : Plan) (k : Kcp) → AreCounted k → AreCounted (shrink_windows cwnd p k)
unfolding shrink_windows
shrink_windows-AreCounted cwnd p k h =
    if-elim AreCounted (ltb (lost_windows (changed_windows k)).cwnd 1) _ _
      (λ _. lost (changed_windows k) changed) (λ _. lost (changed_windows k) changed)
  where
    at_least : ℕ → ℕ
    at_least t = if ltb t thresh_min then thresh_min else t

    half : ℕ
    half = at_least (sub32 k.snd_nxt k.snd_una / 2)

    fast : ℕ
    fast = add32 half (to_u32 p.resent)

    changed_windows : Kcp → Kcp
    changed_windows l =
        if p.change then record l { ssthresh = half; cwnd = fast; incr = mul32 fast l.mss } else l

    lost_windows : Kcp → Kcp
    lost_windows l =
        if p.lost then record l { ssthresh = at_least (cwnd / 2); cwnd = 1; incr = l.mss } else l

    changed : AreCounted (changed_windows k)
    changed = if-elim AreCounted p.change _ _ (λ _. h) (λ _. h)

    lost : (l : Kcp) → AreCounted l → AreCounted (lost_windows l)
    lost l h' = if-elim AreCounted p.lost _ _ (λ _. h') (λ _. h')

flush_segments-Counts :
    (seg : Segment) (s : Flushing) → AreCounted s.kcp → Counts (flush_segments seg s)
unfolding flush_segments
flush_segments-Counts seg s h =
    then-Counts (flush_buf seg.wnd _ _ _) _
      (flush_buf-Counts seg.wnd _ _ _
        (move_queue-AreCounted (send_window s.kcp) seg.wnd s.kcp.snd_queue s.kcp refl h))
      λ s1 p h1.
        then-Counts (if ltb 0 (length s1.buffer) then output s1 else done s1 tt) _
          (either-Counts (ltb 0 (length s1.buffer)) _ _ (output-Counts s1 h1) h1)
          λ s2 x h2. shrink_windows-AreCounted (send_window s.kcp) p s2.kcp h2

probe_timer-AreCounted : (k : Kcp) → AreCounted k → AreCounted (probe_timer k)
unfolding probe_timer
probe_timer-AreCounted k h =
    if-elim AreCounted (k.rmt_wnd == 0) _ _
      (λ _.
        if-elim AreCounted (k.probe_wait == 0) _ _ (λ _. h)
          (λ _. if-elim AreCounted (leb k.ts_probe k.current) _ _ (λ _. h) (λ _. h)))
      (λ _. h)

pub flush-AreCounted : (k : Kcp) → AreCounted k → Ensures (λ s _. AreCounted s.kcp) (flush k)
unfolding flush
flush-AreCounted k h = either-Counts (k.updated == 0) _ _ h (
    then-Counts (flush_acks k.ack_count 0 (ack_segment k) _) _
      (flush_acks-Counts k.ack_count 0 _ _ h)
      λ s1 seg h1.
        then-Counts (flush_probe seg _) _ (flush_probe-Counts seg _ (probe_timer-AreCounted _ h1))
          λ s2 seg' h2. flush_segments-Counts seg' _ h2)
