-- ===== src/Kcp/Parse/Una.antt =====
-- Parse_Una, which deletes from the slice that its loop ranges over: what it is to leave, and when
-- it runs past the end.
pub mod Steps
pub mod Overrun
pub mod Outcome
use golang_tools.Base.{
  ℕ, zero, suc, ◌+◌, ◌-◌, ◌%◌, ◌^◌, ◌≤◌, ◌<◌, ◌≡◌, refl, sym, ap, ◌∙◌, ◌⊎◌, inl, inr, arith, ltb,
  if◌then◌else◌, Bool, true, false, ◌&&◌, ◌||◌, List, [], ◌∷◌, ◌++◌, length, get_elem?, last_of,
  All, take_front, get_elem?-middle, length-append, append_assoc, append-nil, Bool-cases, some,
  none,
}
use golang_tools.Base.Word.{sub32}
use golang_tools.Base.Run.{Run, done, panic, stuck, after, Panics, slice_out_of_range}
use golang_tools.Base.Slice.{Slice, of_list, shown, delete_at, delete_at-middle, delete_at_beyond}
use golang_tools.Kcp.Define.{Segment, Kcp}
use golang_tools.Kcp.Parse.{
  SndBuf, open_snd_buf, close_snd_buf, on_snd_buf, delete_snd, una_loop, parse_una,
}

-- What the loop leaves of a buffer: the element behind a deleted one is never looked at.
unfoldable pub swept : ℕ → List Segment → List Segment
swept una [] = []
swept una (x ∷ []) = if ltb x.sn una then [] else x ∷ []
swept una (x ∷ y ∷ r) = if ltb x.sn una then y ∷ swept una r else x ∷ swept una (y ∷ r)

-- The last segment is acknowledged, and so is one before it.
unfoldable pub overruns : ℕ → List Segment → Bool
overruns una [] = false
overruns una (x ∷ []) = false
overruns una (x ∷ y ∷ r) = (ltb x.sn una && ltb (last_of y r).sn una) || overruns una (y ∷ r)

-- The segments that `una` does not acknowledge.
unfoldable pub pending : ℕ → List Segment → List Segment
pending una [] = []
pending una (x ∷ xs) = if ltb x.sn una then pending una xs else x ∷ pending una xs

pub pending-swept : (una : ℕ) (xs : List Segment) → pending una (swept una xs) ≡ pending una xs
unfolding swept pending
pending-swept una [] = refl
pending-swept una (x ∷ []) = ground arith
pending-swept una (x ∷ y ∷ r) = ground (arith, pending-swept una r, pending-swept una (y ∷ r))
