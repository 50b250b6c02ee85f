-- ===== src/Kcp/Parse/Ends.antt =====
-- The loops of kcp/parse.go end: they return or they panic.
use golang_tools.Base.{
  ℕ, zero, suc, inl, inr, ltb, leb, ◌==◌, if◌then◌else◌, Bool, true, false, ◌&&◌, ◌||◌, length,
  get_elem?, Option-cases,
}
use golang_tools.Base.Run.{Run, done, panic, stuck, after, Ends}
use golang_tools.Base.Slice.{delete_at}
use golang_tools.Kcp.Define.{Segment, Kcp}
use golang_tools.Kcp.Parse.{
  SndBuf, RcvBuf, on_snd_buf, on_rcv_buf, delete_snd, move_one, una_loop, ack_loop, move_loop,
  parse_una, parse_ack, ack_push, write_ack, is_repeat, parse_data,
}

-- Any statement that a loop's result ends follows for the connection.
on_snd_buf-Ends : (k : Kcp) (run : Run SndBuf (Unit {0})) → Ends run → Ends (on_snd_buf k run)
on_snd_buf-Ends k (done b x) h = tt
on_snd_buf-Ends k (panic e b) h = tt
on_snd_buf-Ends k stuck h = h

on_rcv_buf-Ends : (k : Kcp) (run : Run RcvBuf (Unit {0})) → Ends run → Ends (on_rcv_buf k run)
on_rcv_buf-Ends k (done b x) h = tt
on_rcv_buf-Ends k (panic e b) h = tt
on_rcv_buf-Ends k stuck h = h

-- Both results end, so their conditional does.
pub if-Ends :
    {S A : Type 0} (b : Bool) (x y : Run S A) → Ends x → Ends y → Ends (if b then x else y)
if-Ends true x y h h' = h
if-Ends false x y h h' = h'

pub after-Ends :
    {S A B : Type 0} (m : Run S A) (f : S → A → Run S B)
    → Ends m
    → ((s : S) (a : A) → Ends (f s a))
    → Ends (after m f)
after-Ends (done s a) f h k = k s a
after-Ends (panic e s) f h k = tt
after-Ends stuck f h k = h

delete_snd-Ends : (i : ℕ) (b : SndBuf) → Ends (delete_snd i b)
delete_snd-Ends i b = elim (Option-cases (delete_at i b.items)) [
  | inl e ↦ rw (e, delete_snd) tt
  | inr (s, e) ↦ rw (e, delete_snd) tt
]

move_one-Ends : (seg : Segment) (i : ℕ) (b : RcvBuf) → Ends (move_one seg i b)
move_one-Ends seg i b = elim (Option-cases (delete_at i b.items)) [
  | inl e ↦ rw (e, move_one) tt
  | inr (s, e) ↦ rw (e, move_one) tt
]

una_loop-Ends : (una rounds i : ℕ) (b : SndBuf) → Ends (una_loop una rounds i b)
unfolding una_loop
una_loop-Ends una zero i b = tt
una_loop-Ends una (suc rounds) i b = elim (Option-cases (get_elem? b.items.array i)) [
  | inl e ↦ rw (e, una_loop) tt
  | inr (seg, e) ↦
      rw (e, una_loop)
        (after-Ends (if ltb seg.sn una then delete_snd i b else done b tt) _
          (if-Ends (ltb seg.sn una) _ _ (delete_snd-Ends i b) tt)
          (λ b' x. una_loop-Ends una rounds (suc i) b'))
]

ack_loop-Ends : (sn rounds i : ℕ) (b : SndBuf) → Ends (ack_loop sn rounds i b)
unfolding ack_loop
ack_loop-Ends sn zero i b = tt
ack_loop-Ends sn (suc rounds) i b = elim (Option-cases (get_elem? b.items.array i)) [
  | inl e ↦ rw (e, ack_loop) tt
  | inr (seg, e) ↦
      rw (e, ack_loop)
        (if-Ends (sn == seg.sn) _ _ (delete_snd-Ends i b)
          (if-Ends (ltb sn seg.sn) _ _ tt (ack_loop-Ends sn rounds (suc i) b)))
]

move_loop-Ends : (wnd rounds i : ℕ) (b : RcvBuf) → Ends (move_loop wnd rounds i b)
unfolding move_loop
move_loop-Ends wnd zero i b = tt
move_loop-Ends wnd (suc rounds) i b = elim (Option-cases (get_elem? b.items.array i)) [
  | inl e ↦ rw (e, move_loop) tt
  | inr (seg, e) ↦
      rw (e, move_loop)
        (if-Ends (seg.sn == b.rcv_nxt && ltb b.nrcv_que wnd) _ _
          (after-Ends (move_one seg i b) _ (move_one-Ends seg i b)
            (λ b' x. move_loop-Ends wnd rounds (suc i) b'))
          tt)
]

pub parse_una-Ends : (una : ℕ) (k : Kcp) → Ends (parse_una una k)
unfolding parse_una
parse_una-Ends una k = on_snd_buf-Ends k _ (una_loop-Ends una _ 0 _)

pub parse_ack-Ends : (sn : ℕ) (k : Kcp) → Ends (parse_ack sn k)
unfolding parse_ack
parse_ack-Ends sn k =
    if-Ends (ltb sn k.snd_una || leb k.snd_nxt sn) _ _ tt
      (on_snd_buf-Ends k _ (ack_loop-Ends sn _ 0 _))

pub parse_data-Ends : (seg : Segment) (k : Kcp) → Ends (parse_data seg k)
unfolding parse_data
parse_data-Ends seg k = if-Ends (leb _ seg.sn || ltb seg.sn k.rcv_nxt) _ _ tt (
    if-Ends (is_repeat seg.sn k.rcv_buf) _ _ tt
      (on_rcv_buf-Ends k _ (move_loop-Ends k.rcv_wnd _ 0 _)))

pub ack_push-Ends : (sn ts : ℕ) (k : Kcp) → Ends (ack_push sn ts k)
unfolding ack_push
ack_push-Ends sn ts k =
    after-Ends (write_ack _ sn k) _ (if-Ends (ltb _ (length k.ack_list)) _ _ tt tt) λ l x.
      after-Ends (write_ack _ ts l) _ (if-Ends (ltb _ (length l.ack_list)) _ _ tt tt) λ l' x'. tt
