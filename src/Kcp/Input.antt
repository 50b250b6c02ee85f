-- ===== src/Kcp/Input.antt =====
-- Input of kcp/kcp.go: the segments of a datagram, one after the other.
pub mod Header
pub mod Window
pub mod Outcome
use Prim.Native.Nat.{bit_or}
use golang_tools.Base.{
  ℕ, zero, suc, ◌+◌, ◌*◌, ◌/◌, ltb, leb, ◌==◌, if◌then◌else◌, Bool, true, false, ◌&&◌, ◌||◌, not,
  ◌⊎◌, inl, inr, List, [], ◌∷◌, length, drop, get_elem?, Option, none, some,
}
pub use golang_tools.Base.Bytes.{byte_at, be16_at, be32_at}
use golang_tools.Base.Int.{ℤ, pos, negsuc}
use golang_tools.Base.Word.{add32, sub32, mul32, signed32}
use golang_tools.Base.Run.{
  Run, done, panic, stuck, after, index_out_of_range, slice_out_of_range, divide_by_zero,
}
use golang_tools.Kcp.Define.{
  Segment, zero_segment, Kcp, overhead, cmd_ack, cmd_push, cmd_wask, cmd_wins, ask_tell,
}
use golang_tools.Kcp.Parse.{
  parse_una, shrink_buf, update_ack, parse_ack, ack_push, parse_data, parse_fastack,
}

-- The fields of the header; the data is set by the handler.
unfoldable pub read_header : List ℕ → Segment
read_header bs = record zero_segment {
  conv = be32_at bs 0;
  cmd = byte_at bs 4;
  frg = byte_at bs 5;
  wnd = be16_at bs 6;
  ts = be32_at bs 8;
  sn = be32_at bs 12;
  una = be32_at bs 16;
  len = be32_at bs 20;
}

-- The variables flag, maxack and latest_ts.
pub record Acks : Type 0 where
  pub flag : Bool
  pub maxack : ℕ
  pub latest_ts : ℕ

abbrev pub no_acks : Acks
no_acks = record { flag = false; maxack = 0; latest_ts = 0 }

-- The largest acknowledged number, if its time stamp is later too.
unfoldable pub note_ack : Segment → Acks → Acks
note_ack seg a =
    if not a.flag
    then record { flag = true; maxack = seg.sn; latest_ts = seg.ts }
    else if ltb a.maxack seg.sn && ltb a.latest_ts seg.ts
    then record a { maxack = seg.sn; latest_ts = seg.ts }
    else a

unfoldable pub on_ack : Segment → Acks → Kcp → Run Kcp Acks
on_ack seg a k =
    let k' =
      (if leb seg.ts k.current then update_ack (signed32 (sub32 k.current seg.ts)) k else k) in
    after (parse_ack seg.sn k') (λ l _. done (shrink_buf l) (note_ack seg a))

-- `rest` is what follows the header in the datagram; a segment with data keeps all of it.
unfoldable pub on_push : Segment → List ℕ → Acks → Kcp → Run Kcp Acks
on_push seg rest a k =
    if ltb seg.sn (add32 k.rcv_nxt k.rcv_wnd)
    then after (ack_push seg.sn seg.ts k) (λ l _.
      if leb l.rcv_nxt seg.sn
      then after (parse_data (record seg { bytes = (if ltb 0 seg.len then rest else []) }) l)
          (λ l' _. done l' a)
      else done l a)
    else done k a

unfoldable pub on_segment : Segment → List ℕ → Acks → Kcp → Run Kcp Acks
on_segment seg rest a k = after (parse_una seg.una (record k { rmt_wnd = seg.wnd })) (λ k1 _.
    let l = shrink_buf k1 in
    if seg.cmd == cmd_ack
    then on_ack seg a l
    else if seg.cmd == cmd_push
    then on_push seg rest a l
    else if seg.cmd == cmd_wask
    then done (record l { probe = bit_or l.probe ask_tell }) a
    else done l a)

-- How an iteration ends: the function returns, the loop breaks, or the loop goes on.
pub data Turn : Type 0 where
  returns : ℤ → Turn
  breaks : Acks → Turn
  goes_on : List ℕ → Acks → Turn

abbrev pub is_command : ℕ → Bool
is_command c = c == cmd_ack || c == cmd_push || c == cmd_wask || c == cmd_wins

-- One iteration. `size` is the variable dataSize, the length of the whole datagram; `bytes` is what
-- is left of it. Reading the first four bytes panics if they are not there, and so do the reads up
-- to `data = data[IKCP_OVERHEAD:]` if the header is not complete.
unfoldable pub input_round : ℕ → List ℕ → Acks → Kcp → Run Kcp Turn
input_round size bytes a k =
    let seg = read_header bytes in
    let rest = drop overhead bytes in
    if ltb size overhead
    then done k (breaks a)
    else if ltb (length bytes) 4
    then panic index_out_of_range k
    else if not (be32_at bytes 0 == k.conv)
    then done k (returns (negsuc 0))
    else if ltb (length bytes) overhead
    then panic slice_out_of_range k
    else if ltb (length rest) seg.len
    then done k (returns (negsuc 1))
    else if not (is_command seg.cmd)
    then done k (returns (negsuc 2))
    else after (on_segment seg rest a k) (λ l a'. done l (goes_on (drop seg.len rest) a'))

-- The loop; it ends with the value to return, or with what it noted of the acknowledgements.
unfoldable pub input_loop : ℕ → ℕ → List ℕ → Acks → Kcp → Run Kcp (ℤ ⊎ Acks)
input_loop zero size bytes a k = stuck
input_loop (suc fuel) size bytes a k = after (input_round size bytes a k) (λ l t. elim t [
  | returns code ↦ done l (inl code)
  | breaks a' ↦ done l (inr a')
  | goes_on more a' ↦ input_loop fuel size more a' l
])

-- Incr in congestion avoidance, where the divisor is not zero.
abbrev pub grow_incr : ℕ → ℕ → ℕ
grow_incr mss incr = add32 incr (add32 (mul32 mss mss / incr) (mss / 16))

abbrev pub avoid_congestion : Kcp → Run Kcp (Unit {0})
avoid_congestion k =
    let base = (if ltb k.incr k.mss then k.mss else k.incr) in
    if base == 0
    then panic divide_by_zero (record k { incr = base })
    else (let grown = grow_incr k.mss base in
        done
          (record k {
            incr = grown;
            cwnd =
                (if leb (mul32 (add32 k.cwnd 1) k.mss) grown
                  then sub32 (add32 grown k.mss) 1 / (if ltb 0 k.mss then k.mss else 1)
                  else k.cwnd);
          })
          tt)

-- The window never passes the peer's.
abbrev pub cap_window : Kcp → Kcp
cap_window k =
    if ltb k.rmt_wnd k.cwnd then record k { cwnd = k.rmt_wnd; incr = mul32 k.rmt_wnd k.mss } else k

-- The growth of the congestion window, when Snd_una has risen above `prev_una`.
unfoldable pub grow_window : ℕ → Kcp → Run Kcp (Unit {0})
grow_window prev_una k =
    if ltb prev_una k.snd_una && ltb k.cwnd k.rmt_wnd
    then after
        (if ltb k.cwnd k.ssthresh
          then done (record k { cwnd = add32 k.cwnd 1; incr = add32 k.incr k.mss }) tt
          else avoid_congestion k)
        (λ l _. done (cap_window l) tt)
    else done k tt

-- What follows the loop.
abbrev pub input_finish : ℕ → Acks → Kcp → Run Kcp ℤ
input_finish prev_una a k =
    after (grow_window prev_una (if a.flag then parse_fastack a.maxack a.latest_ts k else k))
      (λ l _. done l (pos 0))

unfoldable pub input : List ℕ → Kcp → Run Kcp ℤ
input bytes k =
    if ltb (length bytes) overhead
    then done k (negsuc 0)
    else after (input_loop (suc (length bytes)) (length bytes) bytes no_acks k)
        (λ l r. elim r [ inl code ↦ done l code | inr a ↦ input_finish k.snd_una a l ])
