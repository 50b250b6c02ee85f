-- ===== src/App/Services/Progress.antt =====
-- The reporting of services' errors makes progress: no endless run, and a stop only where all is settled.
use golang_tools.Base.{
  ℕ, ◌+◌, ◌<◌, ◌≡◌, refl, ap, arith, List, [], ◌∷◌, ◌++◌, length, length-append, Option, none, some,
  inl, inr, ◌⊎◌, ◌≢◌,
}
use golang_tools.App.Services.{
  Goroutine, failing, over, Main, occupied, selecting, received, left, Running, Internal, sends,
  readies, gives_up, receives, IsAtRest,
}
use golang_tools.App.Services.Reports.{held, stuck_with, holder}

module _ {E : Type 0} where
  abbrev pub to_do : Main E → ℕ
  to_do occupied = 2
  to_do selecting = 1
  to_do (received e) = 0
  to_do left = 0

  -- What the channel and the function have still to do, unless further services end.
  abbrev pub work : Running E → ℕ
  work c = length (stuck_with c.workers) + to_do c.main

  length-stuck_with :
      (xs ys : List (Goroutine E)) (g : Goroutine E)
      → length (stuck_with (xs ++ (g ∷ ys))) ≡ length (held g) + length (stuck_with (xs ++ ys))
  length-stuck_with [] ys g = length-append (held g) (stuck_with ys)
  length-stuck_with (x ∷ xs) ys g = omega (
    arith,
    length-append (held x) (stuck_with (xs ++ (g ∷ ys))),
    length-append (held x) (stuck_with (xs ++ ys)),
    length-stuck_with xs ys g,
  )

  Internal-work : (c d : Running E) → Internal c d → work d < work c
  Internal-work c d (sends xs ys e at_send free) = omega (
    arith,
    ap (λ gs. length (stuck_with gs)) at_send,
    length-stuck_with xs ys (failing e),
    length-stuck_with xs ys (over (some e)),
  )
  Internal-work c d (readies at_tasks) = omega (arith, ap to_do at_tasks)
  Internal-work c d (gives_up at_tasks) = omega (arith, ap to_do at_tasks)
  Internal-work c d (receives e at_select full) = omega (arith, ap to_do at_select)

  -- The tasks are at their end; if the function is at its select the channel is empty; and no goroutine has an
  -- error unless the channel is full.
  abbrev pub IsSettled : Running E → Type 0
  IsSettled c =
      (c.main ≢ occupied)
      × (c.main ≡ selecting → c.channel ≡ none)
      × (c.channel ≡ none → stuck_with c.workers ≡ [])

  pub IsSettled-IsAtRest : (c : Running E) → IsSettled c → IsAtRest c
  IsSettled-IsAtRest c (passed, unread, unheld) d (sends xs ys e at_send free) = omega (
    arith,
    ap length (unheld free),
    ap (λ gs. length (stuck_with gs)) at_send,
    length-stuck_with xs ys (failing e),
  )
  IsSettled-IsAtRest c (passed, unread, unheld) d (readies at_tasks) = passed at_tasks
  IsSettled-IsAtRest c (passed, unread, unheld) d (gives_up at_tasks) = passed at_tasks
  IsSettled-IsAtRest c (passed, unread, unheld) d (receives e at_select full) =
      cc (unread at_select, full)

  pub full-IsSettled :
      (c : Running E) (e : E)
      → c.main ≢ occupied
      → c.main ≢ selecting
      → c.channel ≡ some e
      → IsSettled c
  full-IsSettled c e passed behind full =
      (passed, λ at_select. absurd (behind at_select), λ free. absurd (cc (free, full)))

  -- Behind the tasks, with a free channel.
  free_moves :
      (c : Running E)
      → c.main ≢ occupied
      → c.channel ≡ none
      → IsSettled c ⊎ ((d : Running E) × Internal c d)
  free_moves c passed free = elim (holder c.workers) [
    | inl unheld ↦ inl (passed, λ at_select. free, λ still. unheld)
    | inr (xs, ys, e, at_e) ↦ inr (_, sends xs ys e at_e free)
  ]

  moves :
      (c : Running E) (m : Main E) (o : Option E)
      → c.main ≡ m
      → c.channel ≡ o
      → IsSettled c ⊎ ((d : Running E) × Internal c d)
  moves c occupied o e f = inr (_, readies e)
  moves c selecting none e f = free_moves c (λ p. cc (p, e)) f
  moves c selecting (some x) e f = inr (_, receives x e f)
  moves c (received y) none e f = free_moves c (λ p. cc (p, e)) f
  moves c (received y) (some x) e f = inl (full-IsSettled c x (λ p. cc (p, e)) (λ p. cc (p, e)) f)
  moves c left none e f = free_moves c (λ p. cc (p, e)) f
  moves c left (some x) e f = inl (full-IsSettled c x (λ p. cc (p, e)) (λ p. cc (p, e)) f)

  -- In every state each step of the channel or of the function leaves them less to do. They can make a step
  -- unless all is settled: the tasks are at their end, an error in the channel is not left there by a function at
  -- its select, and a goroutine with an error waits only for a channel that is full. Then they can make none.
  pub works_off :
      (c : Running E)
      → ((d : Running E) → Internal c d → work d < work c)
        × (IsSettled c ⊎ ((d : Running E) × Internal c d))
        × (IsSettled c → (d : Running E) → ¬ Internal c d)
  works_off c = (
    λ d st. Internal-work c d st,
    moves c c.main c.channel refl refl,
    λ h d st. IsSettled-IsAtRest c h d st,
  )
