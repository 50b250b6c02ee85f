-- ===== src/App/Registry/Again.antt =====
-- Run of a registry that has applications already.
use golang_tools.Base.{
  ◌<◌, ◌≡◌, refl, ap, subst, arith, if◌then◌else◌, true, false, List, [], ◌∷◌, ◌++◌, length,
  length-append, Option, none, some,
}
use golang_tools.Base.Run.{Run, done, panic, stuck, nil_pointer, Ensures, Ensures-after, Ends}
use golang_tools.Base.Texts.{Text}
use golang_tools.App.Flags.{Flag}
use golang_tools.App.Flags.Registered.{Ends-parse_structs}
use golang_tools.App.Tasks.{Failure, init_task, app_init, App, run_tasks}
use golang_tools.App.Registry.{
  AppOutSide, Registry, Process, Outside, Event, new_apps, initialize, load_file, load_config,
  lift_flags, init_apps, pass_app, run_init, run, run_phases, with_apps, unless_failed, cmd_pointer,
  boot_configs,
}

abbrev pub IsFailure : Option Failure → Type 0
IsFailure none = ⊥
IsFailure (some e) = Unit {0}

-- No return of nil.
abbrev pub NotStarted : {S : Type 0} → Run S (Option Failure) → Type 0
NotStarted r = Ensures (λ _ err. IsFailure err) r

module _ {W C : Type 0} (out : Outside W C) where
  -- initialize ends, with the new applications behind the old ones.
  abbrev HasMade : Registry W C → Process W C → Type 0
  HasMade r q =
      (q.registry.apps ≡ r.apps ++ new_apps r.out_sides) × (q.registry.out_sides ≡ r.out_sides)

  HasMade-load_file :
      (r : Registry W C) (q : Process W C) (old : C) (path : Text)
      → HasMade r q
      → Ensures (λ q' _. HasMade r q') (load_file out q old path)
  HasMade-load_file r q old [] h = h
  HasMade-load_file r q old (c ∷ path) h = h

  HasMade-load_config :
      (r : Registry W C) (q : Process W C) (c : Option C)
      → HasMade r q
      → Ensures (λ q' _. HasMade r q') (load_config out q c)
  HasMade-load_config r q none h = h
  HasMade-load_config r q (some old) h =
      elim q.registry.has_cmd_flag
        as (λ b.
          Ensures (λ q' _. HasMade r q')
            (if b then load_file out q old (out.boot_path q.flags) else panic nil_pointer q)) [
              | true ↦ HasMade-load_file r q old (out.boot_path q.flags) h
              | false ↦ tt
            ]

  HasMade-lift_flags :
      (r : Registry W C) (q : Process W C) (u : Run (List Flag) (Unit {0}))
      → Ends u
      → HasMade r q
      → Ensures (λ q' _. HasMade r q') (lift_flags q u)
  HasMade-lift_flags r q (done fs x) ends h = h
  HasMade-lift_flags r q (panic e fs) ends h = tt
  HasMade-lift_flags r q stuck ends h = ends

  HasMade-initialize : (p : Process W C) → Ensures (λ q _. HasMade p.registry q) (initialize out p)
  unfolding initialize
  HasMade-initialize p =
      let made = new_apps p.registry.out_sides in
      let r = record (p.registry) { apps = p.registry.apps ++ made } in
      let q : Process W C = record p { registry = r } in
      Ensures-after (λ q' _. HasMade p.registry q') (λ q' _. HasMade p.registry q') (lift_flags q _)
        _
        (HasMade-lift_flags p.registry q _
          (Ends-parse_structs out.setting
            (cmd_pointer r ∷ p.registry.custom_cmd_flag ∷ boot_configs made) p.flags)
          (refl, refl))
        (λ q' x h. HasMade-load_config p.registry q' p.registry.boot_config h)

  NotStarted-pass_app :
      (a : App W) (r : Run (List (App W) × W) (Option Failure))
      → NotStarted r
      → NotStarted (pass_app a r)
  NotStarted-pass_app a (done (more, w) err) h = h
  NotStarted-pass_app a (panic e (more, w)) h = tt
  NotStarted-pass_app a stuck h = h

  NotStarted-init_apps :
      (outs : List (AppOutSide W)) (apps : List (App W)) (w : W)
      → length outs < length apps
      → NotStarted (init_apps outs apps w)
  unfolding init_apps
  NotStarted-init_apps outs [] w h = absurd (omega arith)
  NotStarted-init_apps [] (a ∷ apps) w h = tt
  NotStarted-init_apps (o ∷ outs) (a ∷ apps) w h =
      let ((a', w'), err) = run_init o.init_func a w in
      elim (run_init o.init_func a w).1
        as (λ e. NotStarted (elim e [
          | none ↦ pass_app a' (init_apps outs apps w')
          | some f ↦ done (a' ∷ apps, w') (some (app_init a.name f))
        ])) [
          | none ↦ NotStarted-pass_app a' _ (NotStarted-init_apps outs apps w' (omega (arith, h)))
          | some f ↦ tt
        ]

  NotStarted-with_apps :
      (p : Process W C) (r : Run (List (App W) × W) (Option Failure))
      → NotStarted r
      → NotStarted (with_apps p r)
  NotStarted-with_apps p (done (more, w) err) h = h
  NotStarted-with_apps p (panic e (more, w)) h = tt
  NotStarted-with_apps p stuck h = h

  NotStarted-unless_failed :
      (err : Option Failure) (p : Process W C) (next : Run (Process W C) (Option Failure))
      → (err ≡ none → NotStarted next)
      → NotStarted (unless_failed err p next)
  NotStarted-unless_failed none p next h = h refl
  NotStarted-unless_failed (some e) p next h = tt

  NotStarted-run_phases :
      (event : Event) (q : Process W C)
      → length q.registry.out_sides < length q.registry.apps
      → NotStarted (run_phases out event q)
  NotStarted-run_phases event q more =
      let (w, err) = run_tasks init_task q.registry.init_tasks q.world in
      let q' : Process W C = record q { world = w } in
      let inits = init_apps q.registry.out_sides q.registry.apps w in
      NotStarted-unless_failed err q' _ (λ _.
        Ensures-after (λ _ e. IsFailure e) (λ _ e. IsFailure e) (with_apps q' inits) _
          (NotStarted-with_apps q' inits
            (NotStarted-init_apps q.registry.out_sides q.registry.apps w more))
          (λ p' e failed. NotStarted-unless_failed e p' _ (λ h. absurd (subst IsFailure h failed))))

  length-new_apps : (outs : List (AppOutSide W)) → length (new_apps outs) ≡ length outs
  length-new_apps [] = refl
  length-new_apps (o ∷ outs) = omega (arith, length-new_apps outs)

  -- A registry that has applications already, as one that was run before, does not start: Run panics or
  -- returns an error, whatever the configuration and the applications do.
  pub run_again-NotStarted :
      (event : Event) (p : Process W C) → 0 < length p.registry.apps → NotStarted (run out event p)
  unfolding run
  run_again-NotStarted event p old =
      Ensures-after (λ q _. HasMade p.registry q) (λ _ e. IsFailure e) (initialize out p) _
        (HasMade-initialize p)
        (λ q err made. NotStarted-unless_failed err q _ (λ _. NotStarted-run_phases event q (
          omega (
            arith,
            old,
            ap length made.0,
            ap length made.1,
            length-append p.registry.apps (new_apps p.registry.out_sides),
            length-new_apps p.registry.out_sides,
          ))))
