-- ===== src/Kcp/Input/Outcome.antt =====
-- Every call of Input ends, and none of them in success.
use golang_tools.Base.{
  ℕ, zero, suc, ◌≤◌, ◌<◌, ◌≡◌, refl, ◌⊎◌, inl, inr, arith, ltb, leb, ◌==◌, not, false, List, length,
  drop, if-elim, ltb→le, ltb→lt, length-drop,
}
use golang_tools.Base.Int.{ℤ, negsuc}
use golang_tools.Base.Run.{Run, done, Ensures, Ends, Ensures-after}
use golang_tools.Kcp.Define.{Segment, Kcp, overhead, cmd_ack, cmd_push, cmd_wask}
use golang_tools.Kcp.Parse.{parse_una, parse_ack, ack_push, parse_data}
use golang_tools.Kcp.Parse.Ends.{
  if-Ends, after-Ends, parse_una-Ends, parse_ack-Ends, parse_data-Ends, ack_push-Ends,
}
use golang_tools.Kcp.Input.{
  is_command, input_finish, Acks, no_acks, on_ack, on_push, on_segment, Turn, returns, breaks,
  goes_on, input_round, input_loop, input, be32_at, read_header,
}

abbrev pub IsError : ℤ → Type 0
IsError r = (r ≡ negsuc 0) ⊎ (r ≡ negsuc 1) ⊎ (r ≡ negsuc 2)

-- After an iteration over `n` bytes the loop has returned an error, or fewer bytes are left.
abbrev TurnFrom : ℕ → Kcp → Turn → Type 0
TurnFrom n l (returns r) = IsError r
TurnFrom n l (breaks a) = ⊥
TurnFrom n l (goes_on more a) = length more < n

on_ack-Ends : (seg : Segment) (a : Acks) (k : Kcp) → Ends (on_ack seg a k)
unfolding on_ack
on_ack-Ends seg a k = after-Ends (parse_ack seg.sn _) _ (parse_ack-Ends seg.sn _) (λ l x. tt)

on_push-Ends : (seg : Segment) (rest : List ℕ) (a : Acks) (k : Kcp) → Ends (on_push seg rest a k)
unfolding on_push
on_push-Ends seg rest a k =
    if-Ends (ltb seg.sn _) _ _
      (after-Ends (ack_push seg.sn seg.ts k) _ (ack_push-Ends seg.sn seg.ts k) λ l x.
        if-Ends (leb l.rcv_nxt seg.sn) _ _
          (after-Ends (parse_data _ l) _ (parse_data-Ends _ l) (λ l' x'. tt)) tt)
      tt

on_segment-Ends :
    (seg : Segment) (rest : List ℕ) (a : Acks) (k : Kcp) → Ends (on_segment seg rest a k)
unfolding on_segment
on_segment-Ends seg rest a k = after-Ends (parse_una seg.una _) _ (parse_una-Ends seg.una _) λ k1 x.
    if-Ends (seg.cmd == cmd_ack) _ _ (on_ack-Ends seg a _) (
      if-Ends (seg.cmd == cmd_push) _ _ (on_push-Ends seg rest a _)
        (if-Ends (seg.cmd == cmd_wask) _ _ tt tt))

input_round-TurnFrom :
    (size : ℕ) (bytes : List ℕ) (a : Acks) (k : Kcp)
    → overhead ≤ size
    → Ensures (TurnFrom (length bytes)) (input_round size bytes a k)
unfolding input_round
input_round-TurnFrom size bytes a k h =
    if-elim T (ltb size overhead) _ _ (λ e. absurd (omega (arith, ltb→lt size overhead e)))
      λ _.
        if-elim T (ltb (length bytes) 4) _ _ (λ _. tt)
          λ _.
            if-elim T (not (be32_at bytes 0 == k.conv)) _ _ (λ _. inl refl)
              λ _.
                if-elim T (ltb (length bytes) overhead) _ _ (λ _. tt)
                  λ full.
                    if-elim T (ltb (length rest) seg.len) _ _ (λ _. inr (inl refl))
                      λ _.
                        if-elim T (not (is_command seg.cmd)) _ _ (λ _. inr (inr refl))
                          λ _.
                            Ensures-after (λ _ _. Unit {0}) (TurnFrom (length bytes))
                              (on_segment seg rest a k) _ (on_segment-Ends seg rest a k)
                              (λ l a' _. shorter full)
  where
    T : Run Kcp Turn → Type 0
    T = Ensures (TurnFrom (length bytes))

    seg : Segment
    seg = read_header bytes

    rest : List ℕ
    rest = drop overhead bytes

    shorter : ltb (length bytes) overhead ≡ false → length (drop seg.len rest) < length bytes
    shorter full = omega (
      arith,
      ltb→le (length bytes) overhead full,
      length-drop seg.len rest,
      length-drop overhead bytes,
    )

abbrev LoopFails : Kcp → ℤ ⊎ Acks → Type 0
LoopFails l (inl r) = IsError r
LoopFails l (inr a) = ⊥

turn-LoopFails :
    (fuel size n : ℕ)
    → ((more : List ℕ) (a : Acks) (l : Kcp)
        → length more < n
        → Ensures LoopFails (input_loop fuel size more a l))
    → (l : Kcp) (t : Turn) → TurnFrom n l t
    → Ensures LoopFails (elim t [
      | returns code ↦ done l (inl code)
      | breaks a' ↦ done l (inr a')
      | goes_on more a' ↦ input_loop fuel size more a' l
    ])
turn-LoopFails fuel size n f l (returns code) h = h
turn-LoopFails fuel size n f l (breaks a) h = h
turn-LoopFails fuel size n f l (goes_on more a) h = f more a l h

-- dataSize keeps the length of the whole datagram, so the break is never taken.
input_loop-LoopFails :
    (fuel size : ℕ) (bytes : List ℕ) (a : Acks) (k : Kcp)
    → overhead ≤ size
    → length bytes < fuel
    → Ensures LoopFails (input_loop fuel size bytes a k)
unfolding input_loop
input_loop-LoopFails zero size bytes a k h enough = absurd (omega arith)
input_loop-LoopFails (suc fuel) size bytes a k h enough =
    Ensures-after (TurnFrom (length bytes)) LoopFails (input_round size bytes a k) _
      (input_round-TurnFrom size bytes a k h)
      (turn-LoopFails fuel size (length bytes)
        (λ more a' l shorter. input_loop-LoopFails fuel size more a' l h (omega arith)))

code-IsError :
    (k l : Kcp) (r : ℤ ⊎ Acks)
    → LoopFails l r
    → Ensures
        (λ l r. IsError r)
        (elim r [ inl code ↦ done l code | inr a ↦ input_finish k.snd_una a l ])
code-IsError k l (inl code) h = h
code-IsError k l (inr a) h = elim h [ ]

-- Whatever arrives and whatever the connection, Input ends: it panics, or it returns -1, -2 or -3.
pub input-IsError : (bytes : List ℕ) (k : Kcp) → Ensures (λ l r. IsError r) (input bytes k)
unfolding input
input-IsError bytes k =
    if-elim (Ensures (λ l r. IsError r)) (ltb (length bytes) overhead) _ _ (λ _. inl refl)
      λ full.
        Ensures-after LoopFails (λ l r. IsError r)
          (input_loop (suc (length bytes)) (length bytes) bytes no_acks k) _
          (input_loop-LoopFails (suc (length bytes)) (length bytes) bytes no_acks k
            (ltb→le (length bytes) overhead full) (omega arith))
          (code-IsError k)
