-- ===== src/Kcp/Flush/Outcome.antt =====
-- When Flush panics, and what it does with nothing to send.
use golang_tools.Base.{
  ℕ, zero, suc, ◌<◌, ◌≡◌, ◌≢◌, refl, arith, ltb, ◌==◌, Bool, true, false, ◌||◌, List, [], ◌∷◌, ◌++◌,
  inl, inr, Bool-cases, Option-cases, get_elem?, ne→==,
}
use golang_tools.Base.Word.{add32}
use golang_tools.Base.Run.{Run, done, panic, stuck, after, Panics}
use golang_tools.Kcp.Define.{Segment, Kcp, overhead, ask_send, ask_tell}
use golang_tools.Kcp.Seg.{encode, encode-Panics, Bytes}
use golang_tools.Kcp.Due.{judge, Plan}
use golang_tools.Kcp.Flush.{
  Flushing, move_queue, probe_timer, flush_probe, flush_segments, stamped, make_room, append_header,
  ack_at, flush_acks, flush, ack_segment, send_copy, flush_buf,
}

-- Panics, or returns to a continuation that panics.
after-Panics :
    {A B : Type 0} (m : Run Flushing A) (f : Flushing → A → Run Flushing B)
    → ((s : Flushing) (a : A) → Panics (f s a))
    → m ≢ stuck
    → Panics (after m f)
after-Panics (done s a) f h e = h s a
after-Panics (panic x s) f h e = tt
after-Panics stuck f h e = absurd (e refl)

then-Panics :
    {A B : Type 0} (m : Run Flushing A) (f : Flushing → A → Run Flushing B)
    → Panics m
    → Panics (after m f)
then-Panics (done s a) f h = elim h [ ]
then-Panics (panic x s) f h = tt
then-Panics stuck f h = elim h [ ]

append_header-Panics : (seg : Segment) (s : Flushing) → Panics (append_header seg s)
append_header-Panics seg s = go (encode seg) refl (encode-Panics seg)
  where
    go : (r : Run Bytes (List ℕ)) → encode seg ≡ r → Panics r → Panics (append_header seg s)
    go (done b bs) e h = elim h [ ]
    go (panic x b) e h = rw (e, append_header) tt
    go stuck e h = elim h [ ]

make_room-ne-stuck : (need : ℕ) (s : Flushing) → make_room need s ≢ stuck
make_room-ne-stuck need s = ground arith

ack_at-ne-stuck : (i : ℕ) (s : Flushing) → ack_at i s ≢ stuck
ack_at-ne-stuck i s = elim (Option-cases (get_elem? s.kcp.ack_list i)) [
  | inl e ↦ rw (e, ack_at) (λ p. cc)
  | inr (x, e) ↦ rw (e, ack_at) (λ p. cc)
]

flush_acks-Panics : (n i : ℕ) (seg : Segment) (s : Flushing) → Panics (flush_acks (suc n) i seg s)
unfolding flush_acks
flush_acks-Panics n i seg s =
    after-Panics (make_room overhead s) _
      (λ s1 x.
        after-Panics (ack_at _ s1) _
          (λ s2 sn.
            after-Panics (ack_at _ s2) _
              (λ s3 ts. then-Panics (append_header _ s3) _ (append_header-Panics _ s3))
              (ack_at-ne-stuck _ s2))
          (ack_at-ne-stuck _ s1))
      (make_room-ne-stuck overhead s)

-- Once Update was called, Flush panics on a connection that has an acknowledgement to send.
pub flush-Panics_ack : (k : Kcp) → k.updated ≢ 0 → 0 < k.ack_count → Panics (flush k)
unfolding flush
flush-Panics_ack k up acks =
    rw (ne→== k.updated 0 up)
      (then-Panics (flush_acks k.ack_count 0 (ack_segment k) start) _ (some_acks k.ack_count acks))
  where
    start : Flushing
    start = record { kcp = k; buffer = []; calls = [] }

    some_acks : (n : ℕ) → 0 < n → Panics (flush_acks n 0 (ack_segment k) start)
    some_acks zero h = absurd (omega arith)
    some_acks (suc n) h = flush_acks-Panics n 0 (ack_segment k) start

send_copy-Panics : (wnd : ℕ) (copy : Segment) (s : Flushing) → Panics (send_copy wnd copy s)
send_copy-Panics wnd copy s =
    after-Panics (make_room _ s) _
      (λ s1 x. then-Panics (append_header _ s1) _ (append_header-Panics _ s1))
      (make_room-ne-stuck _ s)

-- One of the segments was never sent.
abbrev pub has_new : List Segment → Bool
has_new [] = false
has_new (x ∷ xs) = x.xmit == 0 || has_new xs

judge_new :
    (k : Kcp) (p : Plan) (x : Segment) → (x.xmit == 0) ≡ true → (judge k p x).need_send ≡ true
unfolding judge
judge_new k p x h = rw h

flush_buf-Panics :
    (wnd : ℕ) (p : Plan) (segs : List Segment) (s : Flushing)
    → has_new segs ≡ true
    → Panics (flush_buf wnd p segs s)
unfolding flush_buf
flush_buf-Panics wnd p [] s h = cc
flush_buf-Panics wnd p (x ∷ xs) s h = elim (Bool-cases (judge s.kcp p x).need_send) [
  | inl due ↦ rw due (
      then-Panics (send_copy wnd (judge s.kcp p x).seg _) _
        (send_copy-Panics wnd (judge s.kcp p x).seg _))
  | inr waits ↦ rw waits (flush_buf-Panics wnd (judge s.kcp p x).plan xs _ (later waits))
]
  where
    later : (judge s.kcp p x).need_send ≡ false → has_new xs ≡ true
    later waits = elim (Bool-cases (x.xmit == 0)) [
      | inl new ↦ cc (waits, judge_new s.kcp p x new)
      | inr old ↦ rw old at h
    ]

has_new-append : (xs ys : List Segment) → has_new xs ≡ true → has_new (xs ++ ys) ≡ true
has_new-append [] ys h = cc
has_new-append (x ∷ xs) ys h = elim (Bool-cases (x.xmit == 0)) [
  | inl new ↦ rw new
  | inr old ↦ rw old (has_new-append xs ys (rw old at h))
]

-- The queue's segments enter behind those of the buffer.
move_queue_keeps :
    (cwnd wnd : ℕ) (segs : List Segment) (k : Kcp)
    → has_new k.snd_buf ≡ true
    → has_new (move_queue cwnd wnd segs k).snd_buf ≡ true
unfolding move_queue
move_queue_keeps cwnd wnd [] k h = h
move_queue_keeps cwnd wnd (seg ∷ segs) k h =
    elim (Bool-cases (ltb k.snd_nxt (add32 k.snd_una cwnd))) [
      | inl open_window ↦
          rw open_window
            (move_queue_keeps cwnd wnd segs _ (has_new-append k.snd_buf (stamped wnd k seg ∷ []) h))
      | inr full ↦ rw full h
    ]

probe_timer_keeps : (k : Kcp) → (probe_timer k).snd_buf ≡ k.snd_buf
unfolding probe_timer
probe_timer_keeps k = ground arith

flush_segments-Panics :
    (seg : Segment) (s : Flushing) → has_new s.kcp.snd_buf ≡ true → Panics (flush_segments seg s)
unfolding flush_segments
flush_segments-Panics seg s h =
    then-Panics (flush_buf seg.wnd _ _ _) _
      (flush_buf-Panics seg.wnd _ _ _ (move_queue_keeps _ seg.wnd s.kcp.snd_queue s.kcp h))

-- What follows the acknowledgements.
after_probe-Panics :
    (seg : Segment) (s : Flushing)
    → has_new s.kcp.snd_buf ≡ true
    → Panics (
        after
          (flush_probe seg s)
          (λ s2 seg'. flush_segments seg' (record s2 { kcp = record (s2.kcp) { probe = 0 } })))
unfolding flush_probe
after_probe-Panics seg s h =
    elim (Bool-cases (s.kcp.probe == ask_send || s.kcp.probe == ask_tell)) [
      | inl asks ↦ rw asks (
          then-Panics _ _ (
            after-Panics (make_room overhead s) _
              (λ s1 x. then-Panics (append_header _ s1) _ (append_header-Panics _ s1))
              (make_room-ne-stuck overhead s)))
      | inr quiet ↦ rw quiet (flush_segments-Panics seg _ h)
    ]

-- If Updated is not 0, which the application has to set since Update is empty, Flush panics on a connection that
-- has a segment in Snd_buf which was never sent.
pub flush-Panics_new : (k : Kcp) → k.updated ≢ 0 → has_new k.snd_buf ≡ true → Panics (flush k)
unfolding flush
flush-Panics_new k up new = rw (ne→== k.updated 0 up) (go k.ack_count)
  where
    start : Flushing
    start = record { kcp = k; buffer = []; calls = [] }

    rest : Flushing → Segment → Run Flushing (Unit {0})
    rest s1 seg =
        after
          (flush_probe seg (record s1 { kcp = probe_timer (record (s1.kcp) { ack_count = 0 }) }))
          (λ s2 seg'. flush_segments seg' (record s2 { kcp = record (s2.kcp) { probe = 0 } }))

    go : (n : ℕ) → Panics (after (flush_acks n 0 (ack_segment k) start) rest)
    go zero =
        unfold flush_acks in
        after_probe-Panics (ack_segment k) _
          (rw (probe_timer_keeps (record k { ack_count = 0 })) new)
    go (suc n) = then-Panics _ rest (flush_acks-Panics n 0 (ack_segment k) start)
