-- ===== src/Kcp/Flush/Windows.antt =====
-- The congestion window after losses.
use golang_tools.Base.{ℕ, ◌/◌, ◌≤◌, ◌≡◌, arith, true}
use golang_tools.Kcp.Define.{Kcp, thresh_min}
use golang_tools.Kcp.Due.{Plan}
use golang_tools.Kcp.Flush.{shrink_windows}

-- The end of Flush leaves a Cwnd of at least 1, for every connection and whatever was lost.
pub shrink_windows_open : (cwnd : ℕ) (p : Plan) (k : Kcp) → 1 ≤ (shrink_windows cwnd p k).cwnd
unfolding shrink_windows
shrink_windows_open cwnd p k = ground arith

-- If a segment timed out, the end of Flush leaves Cwnd at 1, Incr at Mss, and Ssthresh at no less than
-- IKCP_THRESH_MIN and than half the sending window.
pub shrink_windows_lost :
    (cwnd : ℕ) (p : Plan) (k : Kcp)
    → p.lost ≡ true
    → ((shrink_windows cwnd p k).cwnd ≡ 1)
      × ((shrink_windows cwnd p k).incr ≡ k.mss)
      × (thresh_min ≤ (shrink_windows cwnd p k).ssthresh)
      × (cwnd / 2 ≤ (shrink_windows cwnd p k).ssthresh)
unfolding shrink_windows
shrink_windows_lost cwnd p k h = ground arith
