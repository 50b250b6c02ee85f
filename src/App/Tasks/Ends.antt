-- ===== src/App/Tasks/Ends.antt =====
-- How run of an application ends, and that stop ends.
use golang_tools.Base.{◌≡◌, ◌⊎◌, Bool, true, false, List, [], ◌∷◌, Option, none, some}
use golang_tools.Base.Run.{Ends, Ensures-after}
use golang_tools.Base.Texts.{Text}
use golang_tools.App.Tasks.{
  Failure, post_task, other_task, app_stopped, Task, Service, App, AppEnd, returns, waits, stop_one,
  stop_all, stop_app,
}

module _ {W : Type 0} where
  -- The error of one of the tasks, in some state, wrapped with the task's description.
  abbrev pub IsFrom : (Text → Failure → Failure) → List (Task W) → Failure → Type 0
  IsFrom wrap [] f = ⊥
  IsFrom wrap (t ∷ ts) f =
      ((w : W) × (e : Failure) × ((t.execute w).1 ≡ some e) × (f ≡ wrap t.desc e))
      ⊎ IsFrom wrap ts f

  -- What the end of run tells, if `first` is what the services put into the channel.
  abbrev pub Explained : Option Failure → App W → AppEnd → Type 0
  Explained first a waits = first ≡ none
  Explained first a (returns f) =
      IsFrom post_task a.post_tasks f
      ⊎ IsFrom other_task a.other_synchronous_tasks f
      ⊎ (e : Failure) × (first ≡ some e) × (f ≡ app_stopped a.name e)

  abbrev AllFrom : (Text → Failure → Failure) → List (Task W) → Option Failure → Type 0
  AllFrom wrap ts none = Unit {0}
  AllFrom wrap ts (some f) = IsFrom wrap ts f

  stop_one-Ends : (r : W × Bool) → Ends (stop_one r)
  stop_one-Ends (w, true) = tt
  stop_one-Ends (w, false) = tt

  stop_all-Ends : (ss : List (Service W)) (w : W) → Ends (stop_all ss w)
  stop_all-Ends [] w = tt
  stop_all-Ends (s ∷ ss) w =
      Ensures-after (λ _ _. Unit {0}) (λ _ _. Unit {0}) (stop_one (s.stop w)) _
        (stop_one-Ends (s.stop w)) (λ w' x h. stop_all-Ends ss w')

  pub stop_app-Ends : (a : App W) (w : W) → Ends (stop_app a w)
  unfolding stop_app
  stop_app-Ends a w =
      Ensures-after (λ _ _. Unit {0}) (λ _ _. Unit {0}) (stop_all a.service_tasks w) _
        (stop_all-Ends a.service_tasks w) (λ w' x h. stop_all-Ends a.server_tasks w')
