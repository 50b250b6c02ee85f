-- ===== src/Kcp/Send.antt =====
-- Send and SetNodelay of kcp/kcp.go.
pub mod Pieces
use golang_tools.Base.{
  ℕ, zero, suc, ◌+◌, ◌-◌, ◌*◌, ◌/◌, ◌%◌, ◌^◌, ltb, leb, if◌then◌else◌, Bool, ◌||◌, List, [], ◌∷◌,
  ◌++◌, length, take, drop,
}
use golang_tools.Base.Int.{ℤ, pos, negsuc, pos_part, ltb_ℤ}
use golang_tools.Base.Word.{add32, to_u32}
use golang_tools.Compare.{min_int, max_int}
use golang_tools.Kcp.Define.{Segment, zero_segment, Kcp, rto_ndl, rto_min}

-- `lib.MinInt(len(buffer_2), int(kcp.Mss))`
abbrev pub split_len : List ℕ → ℕ → ℕ
split_len buffer mss = pos_part (min_int (pos (length buffer)) (pos mss))

-- The segment of iteration `i` out of `n`.
abbrev pub piece : ℕ → ℕ → ℕ → List ℕ → Segment
piece mss n i buffer = record zero_segment {
  len = split_len buffer mss % 2 ^ 32;
  frg = (n - i - 1) % 2 ^ 32;
  bytes = take (split_len buffer mss) buffer;
}

-- The loop of Send: `rounds` iterations are left, the next is number `i` of `n`.
unfoldable pub send_loop : ℕ → ℕ → ℕ → List ℕ → Kcp → Kcp
send_loop n zero i buffer k = k
send_loop n (suc rounds) i buffer k =
    send_loop n rounds (suc i) (drop (split_len buffer k.mss) buffer) (record k {
      snd_queue = k.snd_queue ++ (piece k.mss n i buffer ∷ []);
      nsnd_que = add32 k.nsnd_que 1;
    })

-- The number of segments.
abbrev pub split_num : List ℕ → ℕ → ℕ
split_num buffer mss = if ltb mss (length buffer) then length buffer / mss else 1

unfoldable pub send : List ℕ → Kcp → Kcp × ℤ
send buffer k =
    if leb (length buffer) 0 || leb k.mss 0
    then (k, negsuc 0)
    else if ltb 255 (split_num buffer k.mss)
    then (k, negsuc 1)
    else (send_loop (split_num buffer k.mss) (split_num buffer k.mss) 0 buffer k, pos 0)

-- SetNodelay. The flush interval comes from the first argument.
unfoldable pub set_nodelay : ℤ → ℤ → ℤ → ℤ → Kcp → Kcp × ℤ
set_nodelay nodelay interval resend nc k =
    if ltb_ℤ nodelay (pos 0) || ltb_ℤ interval (pos 0) || ltb_ℤ resend (pos 0) || ltb_ℤ nc (pos 0)
    then (k, negsuc 0)
    else (
      record k {
        nodelay = to_u32 nodelay;
        rx_minrto = (if ltb_ℤ (pos 0) nodelay then pos rto_ndl else pos rto_min);
        interval = to_u32 (min_int (max_int nodelay (pos 10)) (pos 5000));
        fast_resend = resend;
        nocwnd = nc;
      },
      pos 0,
    )
