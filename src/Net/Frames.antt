-- ===== src/Net/Frames.antt =====
-- What goes through a connection comes out of it.
use golang_tools.Base.{
  ℕ, zero, suc, ◌+◌, ◌%◌, ◌^◌, ◌≤◌, ◌<◌, ◌≡◌, refl, sym, ap, ◌∙◌, subst, arith, ltb, le→ltb, Bool,
  List, [], ◌∷◌, ◌++◌, map, flatten, append_assoc, append-nil, length, length-append, length-drop,
  drop, take_front, drop_front, All, Option, none, some, Option-cases, Bool-cases, inl, inr, ltb→le,
}
use golang_tools.Base.Int.{ℤ, pos, negsuc}
use golang_tools.Base.Word.{to_u32}
use golang_tools.Base.Bytes.{be32_at, be32_bytes}
use golang_tools.Net.{
  ClientMsg, uncode, decode, received, replied, read_recv_msg, deliver_recv_msg, write_msg,
}

-- A message whose length a frame can hold.
abbrev pub IsSendable : ClientMsg → Type 0
IsSendable m = length m.msg < 2 ^ 32

abbrev AllOf {ℓ} : {A : Type ℓ} → (A → Type 0) → Option A → Type 0
AllOf P none = Unit
AllOf P (some x) = P x

-- The message as the other side sees it: its number is taken modulo 2 ^ 32.
abbrev pub seen : ClientMsg → ClientMsg
seen m = record { tag = pos (to_u32 m.tag); msg = m.msg }

abbrev pub frame : ClientMsg → List ℕ
frame m = decode m.tag m.msg

to_u32_bound : (z : ℤ) → to_u32 z < 2 ^ 32
unfolding to_u32
to_u32_bound (pos n) = omega arith
to_u32_bound (negsuc n) = omega arith

uncode_whole :
    (s msg rest : List ℕ)
    → 8 ≤ length s
    → drop 8 s ≡ msg ++ rest
    → be32_at s 4 ≡ length msg
    → uncode s ≡ some (record { tag = pos (be32_at s 0); msg = msg }, rest)
unfolding uncode
uncode_whole s msg rest long body size =
    rw
      (
        le→ltb (length s) 8 long,
        body,
        size,
        le→ltb (length (msg ++ rest)) (length msg) (omega (arith, length-append msg rest)),
        take_front (length msg) msg rest refl,
        drop_front (length msg) msg rest refl,
      )
      refl

-- From a stream that begins with the frame of a message shorter than 2 ^ 32 bytes uncode reads the
-- number modulo 2 ^ 32 and the message, and leaves exactly what follows the frame.
pub uncode-decode :
    (m : ClientMsg) (rest : List ℕ)
    → IsSendable m
    → uncode (decode m.tag m.msg ++ rest) ≡ some (seen m, rest)
unfolding decode
uncode-decode m rest h =
    uncode_whole (decode m.tag m.msg ++ rest) m.msg rest (omega arith) refl
      (be32_bytes (length m.msg % 2 ^ 32) (omega arith) ∙ omega arith)
    ∙ ap (λ t. some (record { tag = pos t; msg = m.msg }, rest))
        (be32_bytes (to_u32 m.tag) (to_u32_bound m.tag))

-- Reading takes at least the eight bytes of the head.
uncode_shorter : (s : List ℕ) → AllOf (λ r. length r.1 + 8 ≤ length s) (uncode s)
unfolding uncode
uncode_shorter s = elim (Bool-cases (ltb (length s) 8)) [
  | inl short ↦ rw short tt
  | inr head ↦ rw head (elim (Bool-cases (ltb (length (drop 8 s)) (be32_at s 4))) [
    | inl cut ↦ rw cut tt
    | inr whole ↦ rw whole (
        omega
          (arith, ltb→le (length s) 8 head, length-drop 8 s, length-drop (be32_at s 4) (drop 8 s)))
  ])
]

pub uncode_less :
    (s rest : List ℕ) (m : ClientMsg) → uncode s ≡ some (m, rest) → length rest < length s
uncode_less s rest m h =
    let less = subst (AllOf (λ r. length r.1 + 8 ≤ length s)) h (uncode_shorter s) in
    omega (arith, less)

read_recv_msg_ended :
    (fuel : ℕ) (s : List ℕ) → uncode s ≡ none → read_recv_msg (suc fuel) s ≡ some []
unfolding read_recv_msg
read_recv_msg_ended fuel s h =
    ap (λ o. elim o [ none ↦ some [] | some (m, rest) ↦ received m (read_recv_msg fuel rest) ]) h

read_recv_msg_on :
    (fuel : ℕ) (s : List ℕ) (m : ClientMsg) (rest : List ℕ)
    → uncode s ≡ some (m, rest)
    → read_recv_msg (suc fuel) s ≡ received m (read_recv_msg fuel rest)
unfolding read_recv_msg
read_recv_msg_on fuel s m rest h =
    ap (λ o. elim o [ none ↦ some [] | some (m', rest') ↦ received m' (read_recv_msg fuel rest') ])
      h

-- With more rounds than the stream has bytes ReadRecvMsg comes to its end, whatever the bytes are.
pub read_recv_msg_total :
    (fuel : ℕ) (s : List ℕ)
    → length s < fuel
    → (ms : List ClientMsg) × (read_recv_msg fuel s ≡ some ms)
read_recv_msg_total zero s h = absurd (omega arith)
read_recv_msg_total (suc fuel) s h = elim (Option-cases (uncode s)) [
  | inl ended ↦ ([], read_recv_msg_ended fuel s ended)
  | inr ((m, rest), e) ↦
      (let shorter = subst (AllOf (λ r. length r.1 + 8 ≤ length s)) e (uncode_shorter s) in
        let (ms, more) = read_recv_msg_total fuel rest (omega (arith, shorter, h)) in
        (m ∷ ms, read_recv_msg_on fuel s m rest e ∙ ap (received m) more))
]

-- From the frames of any messages shorter than 2 ^ 32 bytes, and a rest that is no whole frame,
-- ReadRecvMsg queues exactly these messages in their order, with numbers modulo 2 ^ 32, if its rounds
-- are more than the bytes.
pub read_recv_msg-frames :
    (fuel : ℕ) (ms : List ClientMsg) (rest : List ℕ)
    → length (flatten (map frame ms) ++ rest) < fuel
    → All IsSendable ms
    → uncode rest ≡ none
    → read_recv_msg fuel (flatten (map frame ms) ++ rest) ≡ some (map seen ms)
read_recv_msg-frames zero ms rest room sendable cut = absurd (omega arith)
read_recv_msg-frames (suc fuel) [] rest room sendable cut = read_recv_msg_ended fuel rest cut
read_recv_msg-frames (suc fuel) (m ∷ ms) rest room (fits, sendable) cut =
    let more = flatten (map frame ms) ++ rest in
    let first : uncode ((frame m ++ flatten (map frame ms)) ++ rest) ≡ some (seen m, more) =
      ap uncode (append_assoc (frame m) (flatten (map frame ms)) rest)
      ∙ uncode-decode m more fits in
    let shorter =
      subst (AllOf (λ r. length r.1 + 8 ≤ length ((frame m ++ flatten (map frame ms)) ++ rest)))
        first (uncode_shorter ((frame m ++ flatten (map frame ms)) ++ rest)) in
    read_recv_msg_on fuel ((frame m ++ flatten (map frame ms)) ++ rest) (seen m) more first
    ∙ ap (received (seen m))
        (read_recv_msg-frames fuel ms rest (omega (arith, shorter, room)) sendable cut)

abbrev pub answered : Option ClientMsg → List ClientMsg → List ClientMsg
answered none ms = ms
answered (some r) ms = r ∷ ms

-- The answers of the session, in the order of the messages; a message that it answers with an error
-- has none.
unfoldable pub answers {ℓ} :
    {S : Type ℓ} → (S → ClientMsg → S × Option ClientMsg) → S → List ClientMsg → List ClientMsg
answers call_back s [] = []
answers call_back s (m ∷ ms) = answered (call_back s m).1 (answers call_back (call_back s m).0 ms)

replied-answered :
    (o : Option ClientMsg) (ms : List ClientMsg)
    → replied o (map frame ms) ≡ map frame (answered o ms)
replied-answered none ms = refl
replied-answered (some r) ms = refl

pub deliver_recv_msg-answers {ℓ} :
    {S : Type ℓ} (call_back : S → ClientMsg → S × Option ClientMsg) (s : S) (ms : List ClientMsg)
    → (deliver_recv_msg call_back s ms).1 ≡ map frame (answers call_back s ms)
unfolding deliver_recv_msg answers
deliver_recv_msg-answers call_back s [] = refl
deliver_recv_msg-answers call_back s (m ∷ ms) =
    ap (replied (call_back s m).1) (deliver_recv_msg-answers call_back (call_back s m).0 ms)
    ∙ replied-answered (call_back s m).1 (answers call_back (call_back s m).0 ms)

write_msg-flatten :
    (conn_write : List ℕ → List ℕ → List ℕ × Bool)
    → ((sent frame : List ℕ) → (conn_write sent frame).0 ≡ sent ++ frame)
    → (sent : List ℕ) (frames : List (List ℕ))
    → write_msg conn_write sent frames ≡ sent ++ flatten frames
unfolding write_msg
write_msg-flatten conn_write appends sent [] = sym (append-nil sent)
write_msg-flatten conn_write appends sent (f ∷ fs) =
    write_msg-flatten conn_write appends (conn_write sent f).0 fs
    ∙ ap (λ xs. xs ++ flatten fs) (appends sent f)
    ∙ append_assoc sent f (flatten fs)

-- For every session and every connection whose Write appends to what was sent, DeliverRecvMsg and
-- WriteMsg together send the frames of the session's answers, in their order, and nothing else.
pub write_msg-deliver_recv_msg {ℓ} :
    {S : Type ℓ} (call_back : S → ClientMsg → S × Option ClientMsg)
    (conn_write : List ℕ → List ℕ → List ℕ × Bool)
    → ((sent frame : List ℕ) → (conn_write sent frame).0 ≡ sent ++ frame)
    → (s : S) (ms : List ClientMsg) (sent : List ℕ)
    → write_msg conn_write sent (deliver_recv_msg call_back s ms).1
      ≡ sent ++ flatten (map frame (answers call_back s ms))
write_msg-deliver_recv_msg call_back conn_write appends s ms sent =
    write_msg-flatten conn_write appends sent (deliver_recv_msg call_back s ms).1
    ∙ ap (λ fs. sent ++ flatten fs) (deliver_recv_msg-answers call_back s ms)
