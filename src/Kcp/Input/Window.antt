-- ===== src/Kcp/Input/Window.antt =====
-- The congestion window in Input.
use golang_tools.Base.{
  ℕ, ◌≤◌, ◌<◌, ◌≡◌, refl, arith, ltb, ◌==◌, if◌then◌else◌, true, ◌&&◌, inl, inr, Bool-cases, ltb→le,
  if-elim, ap, subst, ◌∙◌,
}
use native.Mathlib.Nat.{le_refl}
use golang_tools.Base.Run.{Run, done, after, Returns}
use golang_tools.Kcp.Define.{Kcp}
use golang_tools.Kcp.Input.{grow_window, cap_window, avoid_congestion}

-- The connection `l` has the buffers, the numbers and the windows of `k`, Cwnd and Incr apart.
abbrev pub SameButCwnd : Kcp → Kcp → Type 0
SameButCwnd k l = l ≡ record k { cwnd = l.cwnd; incr = l.incr }

cap_window_bound : (l : Kcp) → ((cap_window l).cwnd ≤ l.rmt_wnd) × SameButCwnd l (cap_window l)
cap_window_bound l = elim (Bool-cases (ltb l.rmt_wnd l.cwnd)) [
  | inl over ↦ rw (over, cap_window) (le_refl l.rmt_wnd, refl)
  | inr within ↦ rw (within, cap_window) (ltb→le l.rmt_wnd l.cwnd within, refl)
]

-- A window that grew, and is capped afterwards.
abbrev Grown : Kcp → Kcp → Type 0
Grown k l = (l.cwnd ≤ k.rmt_wnd) × SameButCwnd k l

capped : (k l : Kcp) → SameButCwnd k l → Grown k (cap_window l)
capped k l e =
    let (bound, same) = cap_window_bound l in
    (
      subst (λ w. (cap_window l).cwnd ≤ w) (ap (λ (c : Kcp). c.rmt_wnd) e) bound,
      same
          ∙ ap (λ (c : Kcp). record c { cwnd = (cap_window l).cwnd; incr = (cap_window l).incr }) e,
    )

avoid_congestion_capped :
    (k : Kcp)
    → 0 < k.mss
    → Returns (after (avoid_congestion k) (λ l _. done (cap_window l) tt)) (λ l _. Grown k l)
avoid_congestion_capped k h =
    elim (Bool-cases ((if ltb k.incr k.mss then k.mss else k.incr) == 0)) [
      | inl none_left ↦ absurd (base_pos none_left)
      | inr some_left ↦ rw (some_left, avoid_congestion) (capped k _ refl)
    ]
  where
    base_pos : ((if ltb k.incr k.mss then k.mss else k.incr) == 0) ≡ true → ⊥
    base_pos e = ground arith

-- With an Mss that is not zero and Cwnd within Rmt_wnd, the growth of the window returns, leaves Cwnd
-- within Rmt_wnd, and changes nothing but Cwnd and Incr.
pub grow_window_bound :
    (prev_una : ℕ) (k : Kcp)
    → 0 < k.mss
    → k.cwnd ≤ k.rmt_wnd
    → Returns (grow_window prev_una k) (λ l _. (l.cwnd ≤ k.rmt_wnd) × SameButCwnd k l)
unfolding grow_window
grow_window_bound prev_una k h within =
    if-elim P (ltb prev_una k.snd_una && ltb k.cwnd k.rmt_wnd) _ _
      (λ _. elim (Bool-cases (ltb k.cwnd k.ssthresh)) [
        | inl slow ↦ rw slow (capped k _ refl)
        | inr fast ↦ rw fast (avoid_congestion_capped k h)
      ])
      (λ _. (within, refl))
  where
    P : Run Kcp (Unit {0}) → Type 0
    P r = Returns r (λ l _. Grown k l)
