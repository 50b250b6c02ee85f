-- ===== src/App/Runs.antt =====
-- The theorems about services at a concrete run: three services fail, and the third error stays where it is.
use golang_tools.Base.{ℕ, ◌<◌, ◌≡◌, refl, true, false, List, [], ◌∷◌, some, none, ◌⊎◌}
use golang_tools.App.Tasks.{Failure, callee, App, new_app, Service}
use golang_tools.App.Services.{
  Goroutine, serving, failing, over, occupied, selecting, received, Running, Internal, sends,
  readies, receives, inner, fails, start, Reach, here, later, IsAtRest,
}
use golang_tools.App.Services.Reports.{stuck_with, failures, Outcome, Reach-Outcome}
use golang_tools.App.Services.Progress.{
  work, IsSettled, IsSettled-IsAtRest, full-IsSettled, works_off,
}

abbrev three : Goroutine Failure → Goroutine Failure → Goroutine Failure → List (Goroutine Failure)
three a b c = a ∷ b ∷ c ∷ []

abbrev err_one : Failure
err_one = callee 1

abbrev err_two : Failure
err_two = callee 2

abbrev err_three : Failure
err_three = callee 3

-- All three have failed, and the tasks are at their end.
abbrev failed : Running Failure
failed = record {
  workers = three (failing err_one) (failing err_two) (failing err_three);
  channel = none;
  main = selecting;
}

-- The first error is reported, the second one is in the channel.
abbrev settled : Running Failure
settled = record {
  workers = three (over (some err_one)) (over (some err_two)) (failing err_three);
  channel = some err_two;
  main = received err_one;
}

Reach-failed : Reach false (start 3 occupied) failed
Reach-failed =
    later
      (later
        (later (later here (inner (readies refl))) (fails [] (serving ∷ serving ∷ []) err_one refl))
        (fails (failing err_one ∷ []) (serving ∷ []) err_two refl))
      (fails (failing err_one ∷ failing err_two ∷ []) [] err_three refl)

Reach-settled : Reach false (start 3 occupied) settled
Reach-settled =
    later
      (later
        (later Reach-failed
          (inner (sends [] (failing err_two ∷ failing err_three ∷ []) err_one refl refl)))
        (inner (receives err_one refl refl)))
      (inner (sends (over (some err_one) ∷ []) (failing err_three ∷ []) err_two refl refl))

settled-IsAtRest : IsAtRest settled
settled-IsAtRest =
    IsSettled-IsAtRest settled (full-IsSettled settled err_two (λ p. cc) (λ p. cc) refl)

Reach-Outcome_example : Outcome settled.main (failures settled.workers) (stuck_with settled.workers)
Reach-Outcome_example = Reach-Outcome false 3 occupied settled refl Reach-settled settled-IsAtRest

-- One goroutine stays at the channel for ever.
one_stuck : stuck_with settled.workers ≡ err_three ∷ []
one_stuck = refl

works_off_example :
    ((d : Running Failure) → Internal failed d → work d < work failed)
    × (IsSettled failed ⊎ ((d : Running Failure) × Internal failed d))
    × (IsSettled failed → (d : Running Failure) → ¬ Internal failed d)
works_off_example = works_off failed

abbrev idle_service : Service ℕ
idle_service = record { stop = λ w. (w, true) }

abbrev app : App ℕ
app = record (new_app (97 ∷ [])) {
  service_tasks = idle_service ∷ idle_service ∷ [];
  server_tasks = idle_service ∷ [];
}
