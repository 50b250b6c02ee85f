-- ===== src/App/Registry/Errors.antt =====
-- The errors that Run returns.
use golang_tools.Base.{
  ◌≡◌, refl, if◌then◌else◌, true, false, List, [], ◌∷◌, ◌++◌, Option, none, some,
}
use golang_tools.Base.Run.{Run, done, panic, stuck, nil_pointer, Ensures, Ensures-after, Ends}
use golang_tools.Base.Texts.{Text}
use golang_tools.App.Flags.{Flag, ConfigError, parse_config_file}
use golang_tools.App.Flags.Registered.{Ends-parse_structs}
use golang_tools.App.Tasks.{
  Failure, callee, post_task, other_task, init_task, app_init, app_stopped, config, Task, App,
  run_tasks, stop_app,
}
use golang_tools.App.Tasks.Ends.{stop_app-Ends}
use golang_tools.App.Registry.{
  AppOutSide, Process, Outside, Event, signalled, stopped, returned, new_apps, boot_configs,
  cmd_pointer, as_failure, initialize, load_file, load_config, lift_flags, init_apps, pass_app,
  run_init, run, run_phases, serve, stop_apps, with_stopped, with_apps, unless_failed,
}

-- No error, or one of the configuration, of an initial task, or of an application's function.
abbrev pub IsEarly : Option Failure → Type 0
IsEarly none = Unit {0}
IsEarly (some config) = Unit {0}
IsEarly (some (init_task desc e)) = Unit {0}
IsEarly (some (app_init name e)) = Unit {0}
IsEarly (some (callee n)) = ⊥
IsEarly (some (post_task desc e)) = ⊥
IsEarly (some (other_task desc e)) = ⊥
IsEarly (some (app_stopped name e)) = ⊥

abbrev ReturnsEarly : {S : Type 0} → Run S (Option Failure) → Type 0
ReturnsEarly r = Ensures (λ _ err. IsEarly err) r

module _ {W : Type 0} where
  IsEarly-run_tasks : (ts : List (Task W)) (w : W) → IsEarly (run_tasks init_task ts w).1
  unfolding run_tasks
  IsEarly-run_tasks [] w = tt
  IsEarly-run_tasks (t ∷ ts) w =
      elim (t.execute w).1
        as (λ o. IsEarly (
          let r : W × Option Failure = elim o [
            | none ↦ run_tasks init_task ts (t.execute w).0
            | some e ↦ ((t.execute w).0, some (init_task t.desc e))
          ] in
          r.1)) [ none ↦ IsEarly-run_tasks ts (t.execute w).0 | some e ↦ tt ]

  ReturnsEarly-pass_app :
      (a : App W) (r : Run (List (App W) × W) (Option Failure))
      → ReturnsEarly r
      → ReturnsEarly (pass_app a r)
  ReturnsEarly-pass_app a (done (more, w) err) h = h
  ReturnsEarly-pass_app a (panic e (more, w)) h = tt
  ReturnsEarly-pass_app a stuck h = h

  ReturnsEarly-init_apps :
      (outs : List (AppOutSide W)) (apps : List (App W)) (w : W)
      → ReturnsEarly (init_apps outs apps w)
  unfolding init_apps
  ReturnsEarly-init_apps outs [] w = tt
  ReturnsEarly-init_apps [] (a ∷ apps) w = tt
  ReturnsEarly-init_apps (o ∷ outs) (a ∷ apps) w =
      let ((a', w'), err) = run_init o.init_func a w in
      elim (run_init o.init_func a w).1
        as (λ e. ReturnsEarly (elim e [
          | none ↦ pass_app a' (init_apps outs apps w')
          | some f ↦ done (a' ∷ apps, w') (some (app_init a.name f))
        ])) [
          | none ↦ ReturnsEarly-pass_app a' _ (ReturnsEarly-init_apps outs apps w')
          | some f ↦ tt
        ]

  stop_apps-Ends : (apps : List (App W)) (w : W) → Ends (stop_apps apps w)
  unfolding stop_apps
  stop_apps-Ends [] w = tt
  stop_apps-Ends (a ∷ more) w =
      Ensures-after (λ _ _. Unit {0}) (λ _ _. Unit {0}) (stop_app a w) _ (stop_app-Ends a w)
        (λ w' x h. stop_apps-Ends more w')

module _ {W C : Type 0} (out : Outside W C) where
  IsEarly-as_failure : (e : Option ConfigError) → IsEarly (as_failure e)
  IsEarly-as_failure none = tt
  IsEarly-as_failure (some e) = tt

  ReturnsEarly-load_file :
      (q : Process W C) (old : C) (path : Text) → ReturnsEarly (load_file out q old path)
  ReturnsEarly-load_file q old [] = tt
  ReturnsEarly-load_file q old (c ∷ path) =
      IsEarly-as_failure (parse_config_file out.read_file out.unmarshal (c ∷ path) old).1

  ReturnsEarly-load_config : (q : Process W C) (c : Option C) → ReturnsEarly (load_config out q c)
  ReturnsEarly-load_config q none = tt
  ReturnsEarly-load_config q (some old) =
      elim q.registry.has_cmd_flag
        as (λ b.
          ReturnsEarly
            (if b then load_file out q old (out.boot_path q.flags) else panic nil_pointer q)) [
              | true ↦ ReturnsEarly-load_file q old (out.boot_path q.flags)
              | false ↦ tt
            ]

  Ends-lift_flags :
      (q : Process W C) (u : Run (List Flag) (Unit {0})) → Ends u → Ends (lift_flags q u)
  Ends-lift_flags q (done fs x) h = tt
  Ends-lift_flags q (panic e fs) h = tt
  Ends-lift_flags q stuck h = h

  ReturnsEarly-initialize : (p : Process W C) → ReturnsEarly (initialize out p)
  unfolding initialize
  ReturnsEarly-initialize p =
      let made = new_apps p.registry.out_sides in
      let r = record (p.registry) { apps = p.registry.apps ++ made } in
      Ensures-after (λ _ _. Unit {0}) (λ _ err. IsEarly err)
        (lift_flags (record p { registry = r }) _) _
        (Ends-lift_flags (record p { registry = r }) _
          (Ends-parse_structs out.setting
            (cmd_pointer r ∷ p.registry.custom_cmd_flag ∷ boot_configs made) p.flags))
        (λ q x h. ReturnsEarly-load_config q p.registry.boot_config)

  ReturnsEarly-with_apps :
      (q : Process W C) (r : Run (List (App W) × W) (Option Failure))
      → ReturnsEarly r
      → ReturnsEarly (with_apps q r)
  ReturnsEarly-with_apps q (done (more, w) err) h = h
  ReturnsEarly-with_apps q (panic e (more, w)) h = tt
  ReturnsEarly-with_apps q stuck h = h

  ReturnsEarly-unless_failed :
      (err : Option Failure) (q : Process W C) (next : Run (Process W C) (Option Failure))
      → IsEarly err
      → (err ≡ none → ReturnsEarly next)
      → ReturnsEarly (unless_failed err q next)
  ReturnsEarly-unless_failed none q next e h = h refl
  ReturnsEarly-unless_failed (some f) q next e h = e

  ReturnsEarly-with_stopped :
      (q : Process W C) (err : Option Failure) (r : Run W (Unit {0}))
      → IsEarly err
      → Ends r
      → ReturnsEarly (with_stopped q err r)
  ReturnsEarly-with_stopped q err (done w x) e h = e
  ReturnsEarly-with_stopped q err (panic f w) e h = tt
  ReturnsEarly-with_stopped q err stuck e h = h

  IsEarly-returned :
      (event : Event) (err : Option Failure) → IsEarly err → IsEarly (returned event err)
  IsEarly-returned signalled err h = tt
  IsEarly-returned (stopped name e) err h = h

  ReturnsEarly-serve :
      (event : Event) (err : Option Failure) (q : Process W C)
      → IsEarly err
      → ReturnsEarly (serve out event err q)
  ReturnsEarly-serve event err q e =
      ReturnsEarly-with_stopped q (returned event err) _ (IsEarly-returned event err e)
        (stop_apps-Ends q.registry.apps (out.running q.registry.apps q.world))

  ReturnsEarly-run_phases :
      (event : Event) (p : Process W C) → ReturnsEarly (run_phases out event p)
  ReturnsEarly-run_phases event p =
      let (w, err) = run_tasks init_task p.registry.init_tasks p.world in
      let q : Process W C = record p { world = w } in
      let inits = init_apps q.registry.out_sides q.registry.apps w in
      ReturnsEarly-unless_failed err q _ (IsEarly-run_tasks p.registry.init_tasks p.world) (λ _.
        Ensures-after (λ _ e. IsEarly e) (λ _ e. IsEarly e) (with_apps q inits) _
          (ReturnsEarly-with_apps q inits
            (ReturnsEarly-init_apps q.registry.out_sides q.registry.apps w))
          (λ q' e early.
            ReturnsEarly-unless_failed e q' _ early (λ _. ReturnsEarly-serve event e q' early)))

  -- For every registry, configuration and application, and whether a signal or the error of an application ends
  -- the serving: if that comes, Run panics or returns, and an error that it returns is one of the configuration,
  -- of an initial task or of an application's function, never the error with which an application has stopped.
  pub run-IsEarly :
      (event : Event) (p : Process W C) → Ensures (λ _ err. IsEarly err) (run out event p)
  unfolding run
  run-IsEarly event p =
      Ensures-after (λ _ e. IsEarly e) (λ _ e. IsEarly e) (initialize out p) _
        (ReturnsEarly-initialize p)
        (λ q err early.
          ReturnsEarly-unless_failed err q _ early (λ _. ReturnsEarly-run_phases event q))
