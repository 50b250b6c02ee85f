-- ===== src/Kcp/Flush/Probe.antt =====
-- The timer of the window probes, and the retransmission timeout of a lost segment.
use golang_tools.Base.{ℕ, ◌+◌, ◌*◌, ◌/◌, ◌%◌, ◌^◌, ◌≤◌, ◌<◌, ◌≡◌, ◌⊎◌, arith, ltb, if◌then◌else◌}
use golang_tools.Base.Word.{to_u32}
use golang_tools.Kcp.Define.{Kcp, probe_init, probe_limit}
use golang_tools.Kcp.Due.{backoff}
use golang_tools.Kcp.Flush.{probe_timer}

-- The waiting time is off, or between 7 and 120 seconds.
abbrev pub IsProbeWait : ℕ → Type 0
IsProbeWait w = (w ≡ 0) ⊎ ((probe_init ≤ w) × (w ≤ probe_limit))

next_wait : ℕ → ℕ
next_wait w =
    let base = (if ltb w probe_init then probe_init else w) in
    let longer = (base + base / 2) % 2 ^ 32 in
    if ltb probe_limit longer then probe_limit else longer

next_wait_bounds :
    (w : ℕ)
    → w ≤ probe_limit
    → (w ≤ next_wait w) × (probe_init ≤ next_wait w) × (next_wait w ≤ probe_limit)
unfolding next_wait
next_wait_bounds w h = ground arith

-- If the peer's window is closed and Probe_wait is 0 or between 7 and 120 seconds, it is between 7 and
-- 120 seconds afterwards, and has not fallen.
pub probe_timer_closed :
    (k : Kcp)
    → k.rmt_wnd ≡ 0
    → IsProbeWait k.probe_wait
    → (k.probe_wait ≤ (probe_timer k).probe_wait)
      × (probe_init ≤ (probe_timer k).probe_wait)
      × ((probe_timer k).probe_wait ≤ probe_limit)
unfolding probe_timer
probe_timer_closed k closed w = ground (arith, next_wait_bounds k.probe_wait)

-- Without the fast mode, and with both timeouts below 2 ^ 31, the timeout of a segment at least
-- doubles.
pub backoff_doubles :
    (k : Kcp) (rto : ℕ)
    → k.nodelay ≡ 0
    → rto < 2 ^ 31
    → to_u32 k.rx_rto < 2 ^ 31
    → 2 * rto ≤ backoff k rto
unfolding backoff
backoff_doubles k rto slow small rx_small = ground arith
