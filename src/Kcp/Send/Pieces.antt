-- ===== src/Kcp/Send/Pieces.antt =====
-- What Send puts into the queue.
use golang_tools.Base.{
  ℕ, zero, suc, ◌+◌, ◌*◌, ◌/◌, ◌%◌, ◌^◌, ◌≤◌, ◌<◌, ◌≡◌, refl, sym, ap, ◌∙◌, arith, ltb, leb,
  if◌then◌else◌, false, ◌||◌, ◌⊎◌, inl, inr, List, [], ◌∷◌, ◌++◌, length, take, drop, All, le→ltb,
  lt→ltb, ltb→le, lt→leb, drop_all, take-add, length-take, take_all, append_assoc, append-nil,
  Bool-cases,
}
use native.Mathlib.Nat.{div-add-mod}
use golang_tools.Base.Int.{pos}
use golang_tools.Base.Word.{IsU32}
use golang_tools.Kcp.Define.{Segment, Kcp}
use golang_tools.Kcp.Send.{split_len, piece, send_loop, split_num, send}

-- The segments of the iterations from `i` on.
unfoldable pub pieces : ℕ → ℕ → ℕ → ℕ → List ℕ → List Segment
pieces mss n zero i buffer = []
pieces mss n (suc rounds) i buffer =
    piece mss n i buffer ∷ pieces mss n rounds (suc i) (drop (split_len buffer mss) buffer)

abbrev pub queued : List Segment → Kcp → Kcp
queued segs k = record k {
  snd_queue = k.snd_queue ++ segs;
  nsnd_que = (k.nsnd_que + length segs) % 2 ^ 32;
}

send_loop-pieces :
    (n rounds i : ℕ) (buffer : List ℕ) (k : Kcp)
    → IsU32 k.nsnd_que
    → send_loop n rounds i buffer k ≡ queued (pieces k.mss n rounds i buffer) k
unfolding send_loop pieces
send_loop-pieces n zero i buffer k h =
    let count : (k.nsnd_que + 0) % 2 ^ 32 ≡ k.nsnd_que = omega arith in
    λ j. record k { snd_queue = sym (append-nil k.snd_queue) j; nsnd_que = sym count j }
send_loop-pieces n (suc rounds) i buffer k h =
    send_loop-pieces n rounds (suc i) (drop (split_len buffer k.mss) buffer) _ (omega arith) ∙ (λ j.
      record k {
        snd_queue =
            append_assoc k.snd_queue (piece k.mss n i buffer ∷ [])
              (pieces k.mss n rounds (suc i) (drop (split_len buffer k.mss) buffer)) j;
        nsnd_que =
            carry k.nsnd_que
              (length (pieces k.mss n rounds (suc i) (drop (split_len buffer k.mss) buffer))) j;
      })
  where
    carry : (a b : ℕ) → ((a + 1) % 2 ^ 32 + b) % 2 ^ 32 ≡ (a + suc b) % 2 ^ 32
    carry a b = omega arith

split_len_lem :
    (buffer : List ℕ) (mss : ℕ)
    → split_len buffer mss ≡ (if ltb (length buffer) mss then length buffer else mss)
split_len_lem buffer mss = ground arith

take-split_len : (buffer : List ℕ) (mss : ℕ) → take (split_len buffer mss) buffer ≡ take mss buffer
take-split_len buffer mss =
    rw (split_len_lem buffer mss) (elim (Bool-cases (ltb (length buffer) mss)) [
      | inl short ↦
          rw short (
            take_all (length buffer) buffer (omega arith)
            ∙ sym (take_all mss buffer (ground arith)))
      | inr long ↦ rw long
    ])

drop-split_len : (buffer : List ℕ) (mss : ℕ) → drop (split_len buffer mss) buffer ≡ drop mss buffer
drop-split_len buffer mss =
    rw (split_len_lem buffer mss) (elim (Bool-cases (ltb (length buffer) mss)) [
      | inl short ↦
          rw short (
            drop_all (length buffer) buffer (omega arith)
            ∙ sym (drop_all mss buffer (ground arith)))
      | inr long ↦ rw long
    ])

-- The bytes of the segments, one after the other.
abbrev pub carried : List Segment → List ℕ
carried [] = []
carried (x ∷ xs) = x.bytes ++ carried xs

carried-pieces :
    (mss n rounds i : ℕ) (buffer : List ℕ)
    → carried (pieces mss n rounds i buffer) ≡ take (rounds * mss) buffer
unfolding pieces
carried-pieces mss n zero i buffer = let e : 0 * mss ≡ 0 = omega arith in rw e
carried-pieces mss n (suc rounds) i buffer =
    let e : suc rounds * mss ≡ mss + rounds * mss = omega arith in
    rw
      (
        take-split_len buffer mss,
        drop-split_len buffer mss,
        carried-pieces mss n rounds (suc i) (drop mss buffer),
        e,
      )
      (take-add mss (rounds * mss) buffer)

-- A segment announces the length of its bytes, which fits into one datagram.
abbrev pub IsPiece : ℕ → Segment → Type 0
IsPiece mss s = (s.len ≡ length s.bytes) × (s.len ≤ mss)

-- A segment's fragment number counts the segments behind it.
abbrev pub Fragments : List Segment → Type 0
Fragments [] = Unit {0}
Fragments (x ∷ xs) = (x.frg ≡ length xs) × Fragments xs

length-pieces :
    (mss n rounds i : ℕ) (buffer : List ℕ) → length (pieces mss n rounds i buffer) ≡ rounds
unfolding pieces
length-pieces mss n zero i buffer = refl
length-pieces mss n (suc rounds) i buffer =
    omega (arith, length-pieces mss n rounds (suc i) (drop (split_len buffer mss) buffer))

split_len_bounds :
    (buffer : List ℕ) (mss : ℕ)
    → (split_len buffer mss ≤ length buffer) × (split_len buffer mss ≤ mss)
split_len_bounds buffer mss = ground arith

pieces-IsPiece :
    (mss n rounds i : ℕ) (buffer : List ℕ)
    → IsU32 mss
    → All (IsPiece mss) (pieces mss n rounds i buffer)
unfolding pieces
pieces-IsPiece mss n zero i buffer h = tt
pieces-IsPiece mss n (suc rounds) i buffer h =
    let (fits, small) = split_len_bounds buffer mss in
    let whole = length-take (split_len buffer mss) buffer fits in
    let same : split_len buffer mss % 2 ^ 32 ≡ split_len buffer mss = omega (arith, small) in
    (
      (same ∙ sym whole, rw same small),
      pieces-IsPiece mss n rounds (suc i) (drop (split_len buffer mss) buffer) h,
    )

pieces-Fragments :
    (mss n rounds i : ℕ) (buffer : List ℕ)
    → n ≡ i + rounds
    → n ≤ 255
    → Fragments (pieces mss n rounds i buffer)
unfolding pieces
pieces-Fragments mss n zero i buffer e h = tt
pieces-Fragments mss n (suc rounds) i buffer e h = (
  omega (arith, length-pieces mss n rounds (suc i) (drop (split_len buffer mss) buffer)),
  pieces-Fragments mss n rounds (suc i) (drop (split_len buffer mss) buffer) (omega arith) h,
)

covers : (n m : ℕ) → (n ≤ m) ⊎ (n % m ≡ 0) → n ≤ (if ltb m n then n / m else 1) * m
covers n m (inl h) = rw (le→ltb m n h) (omega arith)
covers n m (inr h) = elim (Bool-cases (ltb m n)) [
  | inl long ↦ rw long (omega (arith, div-add-mod n m))
  | inr short ↦ rw short (omega (arith, ltb→le m n short))
]

module _ (buffer : List ℕ) (k : Kcp) (some_bytes : 0 < length buffer) (some_room : 0 < k.mss)
    (few : split_num buffer k.mss ≤ 255) (mss_small : IsU32 k.mss)
    (que_small : IsU32 k.nsnd_que) where
  abbrev sent : List Segment
  sent = pieces k.mss (split_num buffer k.mss) (split_num buffer k.mss) 0 buffer

  send-pieces : send buffer k ≡ (queued sent k, pos 0)
  unfolding send
  send-pieces =
      rw (accepted, le→ltb 255 (split_num buffer k.mss) few)
        (ap (λ l. (l, pos 0))
          (send_loop-pieces (split_num buffer k.mss) (split_num buffer k.mss) 0 buffer k que_small))
    where
      accepted : (leb (length buffer) 0 || leb k.mss 0) ≡ false
      accepted = rw (lt→leb (length buffer) 0 some_bytes, lt→leb k.mss 0 some_room)

  -- For a buffer and an Mss that are not empty, at most 255 segments, and Mss and Nsnd_que in 32 bits:
  -- Send returns 0 and appends as many segments to Snd_queue as it has counted. They carry the front
  -- of the buffer in order, up to that number times Mss. Each announces the length of its bytes,
  -- which is at most Mss, and its fragment number is the number of segments behind it.
  pub send_splits :
      (segs : List Segment) × (send buffer k ≡ (queued segs k, pos 0))
      × (length segs ≡ split_num buffer k.mss)
      × (carried segs ≡ take (split_num buffer k.mss * k.mss) buffer)
      × All (IsPiece k.mss) segs
      × Fragments segs
  send_splits = (
    sent,
    send-pieces,
    length-pieces k.mss _ (split_num buffer k.mss) 0 buffer,
    carried-pieces k.mss _ (split_num buffer k.mss) 0 buffer,
    pieces-IsPiece k.mss _ (split_num buffer k.mss) 0 buffer mss_small,
    pieces-Fragments k.mss _ (split_num buffer k.mss) 0 buffer (omega arith) few,
  )

  -- Under the conditions on the buffer, Mss and Nsnd_que above: if the buffer fits one segment, or its
  -- length is a multiple of Mss, the segments that Send appends carry the whole buffer.
  pub send_whole :
      (length buffer ≤ k.mss) ⊎ (length buffer % k.mss ≡ 0)
      → (segs : List Segment) × (send buffer k ≡ (queued segs k, pos 0)) × (carried segs ≡ buffer)
  send_whole h = (
    sent,
    send-pieces,
    carried-pieces k.mss _ (split_num buffer k.mss) 0 buffer
        ∙ take_all (split_num buffer k.mss * k.mss) buffer (covers (length buffer) k.mss h),
  )

  -- Under the same conditions, for a buffer longer than Mss: Send returns 0, and the bytes that it has
  -- queued and the remainder of the length by Mss make up the length.
  pub send_truncates :
      k.mss < length buffer
      → (segs : List Segment) × (send buffer k ≡ (queued segs k, pos 0))
        × (length (carried segs) + length buffer % k.mss ≡ length buffer)
  send_truncates long = (
    sent,
    send-pieces,
    rw
        (
          carried-pieces k.mss (split_num buffer k.mss) (split_num buffer k.mss) 0 buffer,
          lt→ltb k.mss (length buffer) long,
        )
        (rw (length-take (length buffer / k.mss * k.mss) buffer (omega (arith, parts)))
          (omega (arith, parts))),
  )
    where
      parts : k.mss * (length buffer / k.mss) + length buffer % k.mss ≡ length buffer
      parts = div-add-mod (length buffer) k.mss
