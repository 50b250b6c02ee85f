-- ===== src/Kcp/Parse/Rto.antt =====
-- Update_Ack: the retransmission timeout.
use golang_tools.Base.{ℕ, ◌+◌, ◌*◌, ◌/◌, ◌^◌, ◌≤◌, ◌<◌, ◌≡◌, arith, ltb, if◌then◌else◌, true, ◌||◌}
use golang_tools.Base.Int.{
  ℤ, pos, ◌≤ℤ◌, ◌-ℤ◌, ◌+ℤ◌, ◌*ℤ◌, ltb_ℤ, quot, +ℤ-pos, *ℤ-pos, quot-pos, -ℤ_self,
}
use golang_tools.Base.Word.{wrap32, signed32, wrap32_small}
use golang_tools.Compare.{min_int32, max_int32}
use golang_tools.Kcp.Define.{Kcp, rto_max}
use golang_tools.Kcp.Parse.{smooth, clamp_rto, update_ack}

between :
    (lo x hi : ℤ)
    → lo ≤ℤ hi
    → (lo ≤ℤ min_int32 (max_int32 lo x) hi) × (min_int32 (max_int32 lo x) hi ≤ℤ hi)
between lo x hi h = ground arith

-- If Rx_minrto is not above IKCP_RTO_MAX, the timeout that Update_Ack sets lies between the two,
-- whatever the measured time and however the products wrap.
pub update_ack_bounds :
    (rtt : ℤ) (k : Kcp)
    → k.rx_minrto ≤ℤ pos rto_max
    → (k.rx_minrto ≤ℤ (update_ack rtt k).rx_rto) × ((update_ack rtt k).rx_rto ≤ℤ pos rto_max)
unfolding update_ack clamp_rto
update_ack_bounds rtt k h = between k.rx_minrto raw (pos rto_max) h
  where
    raw : ℤ
    raw =
        let (rttval, srtt) = smooth k.rx_rttval k.rx_srtt rtt in
        wrap32 (srtt +ℤ max_int32 (signed32 k.interval) (wrap32 (pos 4 *ℤ rttval)))

-- The weighted sum `7 * s + r` over 8, and the deviation's, where nothing wraps.
module _ (s r : ℕ) (s_small : s < 2 ^ 28) (r_small : r < 2 ^ 28) where
  eighths : quot (wrap32 (wrap32 (pos 7 *ℤ pos s) +ℤ pos r)) 8 ≡ pos ((7 * s + r) / 8)
  eighths =
      rw
        (
          *ℤ-pos 7 s,
          wrap32_small (7 * s) (omega arith),
          +ℤ-pos (7 * s) r,
          wrap32_small (7 * s + r) (omega arith),
        )
        (quot-pos (7 * s + r) 8)

  quarters : quot (wrap32 (wrap32 (pos 3 *ℤ pos s) +ℤ pos r)) 4 ≡ pos ((3 * s + r) / 4)
  quarters =
      rw
        (
          *ℤ-pos 3 s,
          wrap32_small (3 * s) (omega arith),
          +ℤ-pos (3 * s) r,
          wrap32_small (3 * s + r) (omega arith),
        )
        (quot-pos (3 * s + r) 4)

started : (s : ℕ) → 0 < s → (ltb_ℤ (pos s) (pos 0) || ltb_ℤ (pos 0) (pos s)) ≡ true
started s h = ground arith

at_least_one : ℕ → ℕ
at_least_one n = if ltb n 1 then 1 else n

smooth_srtt :
    (rttval : ℤ) (s r : ℕ)
    → 0 < s
    → s < 2 ^ 28
    → r < 2 ^ 28
    → (smooth rttval (pos s) (pos r)).1 ≡ pos (at_least_one ((7 * s + r) / 8))
unfolding smooth at_least_one
smooth_srtt rttval s r hs s_small r_small =
    rw (started s hs, eighths s r s_small r_small) (ground arith)

-- For a positive smoothed time and a sample, both below 2 ^ 28, the new smoothed time lies within
-- any bounds that hold of the two.
pub smooth_between :
    (rttval : ℤ) (s r lo hi : ℕ)
    → 0 < s
    → s < 2 ^ 28
    → r < 2 ^ 28
    → lo ≤ s
    → lo ≤ r
    → s ≤ hi
    → r ≤ hi
    → (n : ℕ) × ((smooth rttval (pos s) (pos r)).1 ≡ pos n) × (lo ≤ n) × (n ≤ hi)
unfolding at_least_one
smooth_between rttval s r lo hi hs s_small r_small a b c d = (
  at_least_one ((7 * s + r) / 8),
  smooth_srtt rttval s r hs s_small r_small,
  ground arith,
  ground arith,
)

faster : (s r : ℕ) → s < 2 ^ 28 → r < s → ltb_ℤ (wrap32 (pos r -ℤ pos s)) (pos 0) ≡ true
unfolding wrap32 ◌-ℤ◌
faster s r h lt = ground arith

-- For a positive smoothed time below 2 ^ 28 and a smaller sample, the new deviation is three quarters
-- of the smoothed time: neither the sample nor the deviation before leaves a trace in it.
pub smooth_faster :
    (rttval : ℤ) (s r : ℕ)
    → 0 < s
    → s < 2 ^ 28
    → r < s
    → (smooth rttval (pos s) (pos r)).0 ≡ pos ((3 * s + 0) / 4)
unfolding smooth
smooth_faster rttval s r hs s_small lt =
    rw (started s hs, faster s r s_small lt, -ℤ_self, wrap32_small 0 (omega arith))
      (quarters s 0 s_small (omega arith))
