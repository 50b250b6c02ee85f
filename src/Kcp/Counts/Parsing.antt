-- ===== src/Kcp/Counts/Parsing.antt =====
-- The functions of kcp/parse.go keep the counters right.
use golang_tools.Base.{
  ℕ, zero, suc, ◌%◌, ◌^◌, ◌≤◌, ◌≡◌, sym, ap, ◌∙◌, subst, inl, inr, arith, ltb, leb, ◌==◌,
  if◌then◌else◌, ◌&&◌, ◌||◌, [], ◌∷◌, length, length-append, get_elem?, some, Option-cases,
}
use golang_tools.Base.Word.{add32}
use golang_tools.Base.Int.{ℤ}
use golang_tools.Base.Run.{Run, done, panic, stuck}
use golang_tools.Base.Slice.{Slice, delete_at}
use golang_tools.Kcp.Define.{Segment, Kcp}
use golang_tools.Kcp.Parse.{
  SndBuf, RcvBuf, open_snd_buf, open_rcv_buf, on_snd_buf, on_rcv_buf, delete_snd, move_one,
  una_loop, ack_loop, move_loop, parse_una, parse_ack, ack_push, write_ack, is_repeat, parse_data,
  shrink_buf, update_ack,
}
use golang_tools.Kcp.Counts.{
  Keeps, Keeps-after, Keeps-if, AreCounted, IsCountedSnd, IsCountedRcv, IsShorter,
  IsShorter-delete_at, length-shown, counts_more, counts_less,
}

shorter :
    (i : ℕ) (s t : Slice Segment)
    → s.len ≤ length s.array
    → delete_at i s ≡ some t
    → IsShorter s (some t)
shorter i s t h e = subst (IsShorter s) e (IsShorter-delete_at i s h)

delete_snd-IsCountedSnd :
    (i : ℕ) (b : SndBuf) → IsCountedSnd b → Keeps IsCountedSnd (delete_snd i b)
delete_snd-IsCountedSnd i b (fits, counted) = elim (Option-cases (delete_at i b.items)) [
  | inl e ↦ rw (e, delete_snd) tt
  | inr (s, e) ↦
      let (len, array) = shorter i b.items s fits e in
      rw (e, delete_snd)
        (
          omega (arith, fits, len, array),
          counts_less s.len b.nsnd_buf (counted ∙ ap (λ n. n % 2 ^ 32) len),
        )
]

una_loop-IsCountedSnd :
    (una rounds i : ℕ) (b : SndBuf) → IsCountedSnd b → Keeps IsCountedSnd (una_loop una rounds i b)
unfolding una_loop
una_loop-IsCountedSnd una zero i b h = h
una_loop-IsCountedSnd una (suc rounds) i b h = elim (Option-cases (get_elem? b.items.array i)) [
  | inl e ↦ rw (e, una_loop) tt
  | inr (seg, e) ↦
      rw (e, una_loop)
        (Keeps-after IsCountedSnd (if ltb seg.sn una then delete_snd i b else done b tt) _
          (Keeps-if IsCountedSnd (ltb seg.sn una) _ _ (delete_snd-IsCountedSnd i b h) h)
          (λ b' x h'. una_loop-IsCountedSnd una rounds (suc i) b' h'))
]

ack_loop-IsCountedSnd :
    (sn rounds i : ℕ) (b : SndBuf) → IsCountedSnd b → Keeps IsCountedSnd (ack_loop sn rounds i b)
unfolding ack_loop
ack_loop-IsCountedSnd sn zero i b h = h
ack_loop-IsCountedSnd sn (suc rounds) i b h = elim (Option-cases (get_elem? b.items.array i)) [
  | inl e ↦ rw (e, ack_loop) tt
  | inr (seg, e) ↦
      rw (e, ack_loop)
        (Keeps-if IsCountedSnd (sn == seg.sn) _ _ (delete_snd-IsCountedSnd i b h) (
          Keeps-if IsCountedSnd (ltb sn seg.sn) _ _ h
            (ack_loop-IsCountedSnd sn rounds (suc i) b h)))
]

on_snd_buf-AreCounted :
    (k : Kcp) (run : Run SndBuf (Unit {0}))
    → AreCounted k
    → Keeps IsCountedSnd run
    → Keeps AreCounted (on_snd_buf k run)
on_snd_buf-AreCounted k (done b x) (sq, rq, sb, rb) (fits, counted) =
    (sq, rq, counted ∙ ap (λ n. n % 2 ^ 32) (sym (length-shown b.items fits)), rb)
on_snd_buf-AreCounted k (panic e b) h c = tt
on_snd_buf-AreCounted k stuck h c = tt

opened-IsCountedSnd : (k : Kcp) → AreCounted k → IsCountedSnd (open_snd_buf k)
opened-IsCountedSnd k (sq, rq, sb, rb) = (omega arith, sb)

pub parse_una-AreCounted : (una : ℕ) (k : Kcp) → AreCounted k → Keeps AreCounted (parse_una una k)
unfolding parse_una
parse_una-AreCounted una k h =
    on_snd_buf-AreCounted k _ h (una_loop-IsCountedSnd una _ 0 _ (opened-IsCountedSnd k h))

pub parse_ack-AreCounted : (sn : ℕ) (k : Kcp) → AreCounted k → Keeps AreCounted (parse_ack sn k)
unfolding parse_ack
parse_ack-AreCounted sn k h =
    Keeps-if AreCounted (ltb sn k.snd_una || leb k.snd_nxt sn) _ _ h
      (on_snd_buf-AreCounted k _ h (ack_loop-IsCountedSnd sn _ 0 _ (opened-IsCountedSnd k h)))

move_one-IsCountedRcv :
    (seg : Segment) (i : ℕ) (b : RcvBuf) → IsCountedRcv b → Keeps IsCountedRcv (move_one seg i b)
move_one-IsCountedRcv seg i b (fits, counted, queued) = elim (Option-cases (delete_at i b.items)) [
  | inl e ↦ rw (e, move_one) tt
  | inr (s, e) ↦
      let (len, array) = shorter i b.items s fits e in
      rw (e, move_one)
        (
          omega (arith, fits, len, array),
          counts_less s.len b.nrcv_buf (counted ∙ ap (λ n. n % 2 ^ 32) len),
          counts_more (length b.rcv_queue) b.nrcv_que queued
              ∙ ap (λ n. n % 2 ^ 32) (sym (length-append b.rcv_queue (seg ∷ []))),
        )
]

move_loop-IsCountedRcv :
    (wnd rounds i : ℕ) (b : RcvBuf) → IsCountedRcv b → Keeps IsCountedRcv (move_loop wnd rounds i b)
unfolding move_loop
move_loop-IsCountedRcv wnd zero i b h = h
move_loop-IsCountedRcv wnd (suc rounds) i b h = elim (Option-cases (get_elem? b.items.array i)) [
  | inl e ↦ rw (e, move_loop) tt
  | inr (seg, e) ↦
      rw (e, move_loop)
        (Keeps-if IsCountedRcv (seg.sn == b.rcv_nxt && ltb b.nrcv_que wnd) _ _
          (Keeps-after IsCountedRcv (move_one seg i b) _ (move_one-IsCountedRcv seg i b h)
            (λ b' x h'. move_loop-IsCountedRcv wnd rounds (suc i) b' h'))
          h)
]

on_rcv_buf-AreCounted :
    (k : Kcp) (run : Run RcvBuf (Unit {0}))
    → AreCounted k
    → Keeps IsCountedRcv run
    → Keeps AreCounted (on_rcv_buf k run)
on_rcv_buf-AreCounted k (done b x) (sq, rq, sb, rb) (fits, counted, queued) =
    (sq, queued, sb, counted ∙ ap (λ n. n % 2 ^ 32) (sym (length-shown b.items fits)))
on_rcv_buf-AreCounted k (panic e b) h c = tt
on_rcv_buf-AreCounted k stuck h c = tt

pub parse_data-AreCounted :
    (seg : Segment) (k : Kcp) → AreCounted k → Keeps AreCounted (parse_data seg k)
unfolding parse_data
parse_data-AreCounted seg k (sq, rq, sb, rb) =
    Keeps-if AreCounted (leb (add32 k.rcv_nxt k.rcv_wnd) seg.sn || ltb seg.sn k.rcv_nxt) _ _ counted
      (Keeps-if AreCounted (is_repeat seg.sn k.rcv_buf) _ _ counted
        (on_rcv_buf-AreCounted k _ counted (move_loop-IsCountedRcv k.rcv_wnd _ 0 _ opened)))
  where
    counted : AreCounted k
    counted = (sq, rq, sb, rb)

    opened : IsCountedRcv (open_rcv_buf seg k)
    opened = (
      omega arith,
      counts_more (length k.rcv_buf) k.nrcv_buf rb
          ∙ ap (λ n. n % 2 ^ 32) (sym (length-append k.rcv_buf (seg ∷ []))),
      rq,
    )

write_ack-AreCounted : (i x : ℕ) (k : Kcp) → AreCounted k → Keeps AreCounted (write_ack i x k)
write_ack-AreCounted i x k h = Keeps-if AreCounted (ltb i (length k.ack_list)) _ _ h tt

pub ack_push-AreCounted : (sn ts : ℕ) (k : Kcp) → AreCounted k → Keeps AreCounted (ack_push sn ts k)
unfolding ack_push
ack_push-AreCounted sn ts k h =
    Keeps-after AreCounted (write_ack _ sn k) _ (write_ack-AreCounted _ sn k h) λ l x h'.
      Keeps-after AreCounted (write_ack _ ts l) _ (write_ack-AreCounted _ ts l h') λ l' x' h''. h''

pub shrink_buf-AreCounted : (k : Kcp) → AreCounted k → AreCounted (shrink_buf k)
unfolding shrink_buf
shrink_buf-AreCounted k h = ground arith

pub update_ack-AreCounted : (rtt : ℤ) (k : Kcp) → AreCounted k → AreCounted (update_ack rtt k)
unfolding update_ack
update_ack-AreCounted rtt k h = h
