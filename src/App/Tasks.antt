-- ===== src/App/Tasks.antt =====
-- app/app.go: an application and its tasks. `W` is whatever the tasks act upon.
pub mod Ends
use golang_tools.Base.{
  if◌then◌else◌, length, suc, Bool, true, false, List, [], ◌∷◌, ◌++◌, Option, none, some, ℕ, ◌≡◌,
  refl, ap, ◌∙◌,
}
use golang_tools.Base.Run.{Run, done, panic, after, raised}
use golang_tools.Base.Texts.{Text}
use golang_tools.App.Flags.{Pointer}

-- An error: that of a callee, or one with what fmt.Errorf puts before it.
pub data Failure : Type 0 where
  callee : ℕ → Failure
  post_task other_task init_task app_init app_stopped : Text → Failure → Failure
  config : Failure

-- A task with its description. A nil function is `none`.
pub record Task (W : Type 0) : Type 0 where
  pub desc : Text
  pub execute : W → W × Option Failure

-- An rpc or web service: what its Stop does, with whether it returns or panics. Run is called in a goroutine of
-- its own.
pub record Service (W : Type 0) : Type 0 where
  pub stop : W → W × Bool

pub record App (W : Type 0) : Type 0 where
  pub name : Text
  pub boot_config : Option Pointer
  pub service_tasks : List (Service W)
  pub server_tasks : List (Service W)
  pub post_tasks : List (Task W)
  pub other_synchronous_tasks : List (Task W)
  pub other_asynchronous_tasks : List (Task W)

-- How run ends: with an error, or not at all.
pub data AppEnd : Type 0 where
  returns : Failure → AppEnd
  waits : AppEnd

abbrev pub waited : Text → Option Failure → AppEnd
waited name none = waits
waited name (some e) = returns (app_stopped name e)

module _ {W : Type 0} where
  abbrev pub new_app : Text → App W
  new_app name = record {
    name = name;
    boot_config = none;
    service_tasks = [];
    server_tasks = [];
    post_tasks = [];
    other_synchronous_tasks = [];
    other_asynchronous_tasks = [];
  }

  unfoldable pub add_service : Option (Service W) → App W → App W
  add_service none a = a
  add_service (some s) a = record a { service_tasks = a.service_tasks ++ (s ∷ []) }

  unfoldable pub add_post : Text → Option (W → W × Option Failure) → App W → App W
  add_post desc none a = a
  add_post desc (some f) a = record a {
    post_tasks = a.post_tasks ++ (record { desc = desc; execute = f } ∷ []);
  }

  unfoldable pub add_server : Option (Service W) → App W → App W
  add_server none a = a
  add_server (some s) a = record a { server_tasks = a.server_tasks ++ (s ∷ []) }

  -- The loops that run tasks until the first error; `wrap` is what the error is wrapped in.
  unfoldable pub run_tasks : (Text → Failure → Failure) → List (Task W) → W → W × Option Failure
  run_tasks wrap [] w = (w, none)
  run_tasks wrap (t ∷ ts) w =
      let (w', err) = t.execute w in
      elim err [ none ↦ run_tasks wrap ts w' | some e ↦ (w', some (wrap t.desc e)) ]

  -- The loops of run. `others` is what the goroutines of services and asynchronous tasks, which are under way,
  -- do before the n-th task.
  unfoldable pub run_among :
      (ℕ → W → W) → (Text → Failure → Failure) → List (Task W) → ℕ → W → W × Option Failure
  run_among others wrap [] n w = (w, none)
  run_among others wrap (t ∷ ts) n w =
      let (w', err) = t.execute (others n w) in
      elim err [ none ↦ run_among others wrap ts (suc n) w' | some e ↦ (w', some (wrap t.desc e)) ]

  -- run: `first` is the first error that a service puts into the channel, if one does.
  unfoldable pub run_app : (ℕ → W → W) → Option Failure → App W → W → W × AppEnd
  run_app others first a w =
      let (w1, err) = run_among others post_task a.post_tasks 0 w in
      elim err [
        | some e ↦ (w1, returns e)
        | none ↦
            (let (w2, err') =
                run_among others other_task a.other_synchronous_tasks (length a.post_tasks) w1 in
              elim err' [ some e ↦ (w2, returns e) | none ↦ (w2, waited a.name first) ])
      ]

  abbrev pub stop_one : W × Bool → Run W (Unit {0})
  stop_one (w, returned) = if returned then done w tt else panic raised w

  abbrev pub stop_all : List (Service W) → W → Run W (Unit {0})
  stop_all [] w = done w tt
  stop_all (s ∷ ss) w = after (stop_one (s.stop w)) (λ w' _. stop_all ss w')

  unfoldable pub stop_app : App W → W → Run W (Unit {0})
  stop_app a w = after (stop_all a.service_tasks w) (λ w' _. stop_all a.server_tasks w')

  -- The tasks succeed one after the other, from the first state to the second.
  abbrev pub Succeed : List (Task W) → W → W → Type 0
  Succeed [] w w' = w ≡ w'
  Succeed (t ∷ ts) w w' = ((t.execute w).1 ≡ none) × Succeed ts (t.execute w).0 w'

  pub run_tasks-nil : (wrap : Text → Failure → Failure) (w : W) → run_tasks wrap [] w ≡ (w, none)
  unfolding run_tasks
  run_tasks-nil wrap w = refl

  pub run_tasks-append :
      (wrap : Text → Failure → Failure) (ts us : List (Task W)) (w w' : W)
      → Succeed ts w w'
      → run_tasks wrap (ts ++ us) w ≡ run_tasks wrap us w'
  unfolding run_tasks
  run_tasks-append wrap [] us w w' h = ap (run_tasks wrap us) h
  run_tasks-append wrap (t ∷ ts) us w w' (ok, h) =
      ap
        (λ err. elim err [
          | none ↦ run_tasks wrap (ts ++ us) (t.execute w).0
          | some e ↦ ((t.execute w).0, some (wrap t.desc e))
        ])
        ok
      ∙ run_tasks-append wrap ts us (t.execute w).0 w' h

  -- After tasks that succeed, one that fails ends the loop: those behind it are not run, and the error is
  -- its own, wrapped with its description.
  pub run_tasks_stops :
      (wrap : Text → Failure → Failure) (ts us : List (Task W)) (t : Task W) (w w' : W)
      (e : Failure)
      → Succeed ts w w'
      → (t.execute w').1 ≡ some e
      → run_tasks wrap (ts ++ (t ∷ us)) w ≡ ((t.execute w').0, some (wrap t.desc e))
  unfolding run_tasks
  run_tasks_stops wrap ts us t w w' e h failed =
      run_tasks-append wrap ts (t ∷ us) w w' h
      ∙ ap
          (λ err. elim err [
            | none ↦ run_tasks wrap us (t.execute w').0
            | some e' ↦ ((t.execute w').0, some (wrap t.desc e'))
          ])
          failed
