-- ===== src/App/Registry.antt =====
-- app/registry.go, with app/registry_data.go, app/registry_option.go and app/app_out_side.go: the
-- registry makes the applications, reads flags and configuration, runs the tasks and waits for an end.
pub mod Starts
pub mod Again
pub mod Errors
use golang_tools.Base.{ℕ, if◌then◌else◌, Bool, true, false, List, [], ◌∷◌, ◌++◌, Option, none, some}
use golang_tools.Base.Run.{Run, done, panic, stuck, after, nil_pointer, index_out_of_range}
use golang_tools.Base.Texts.{Text}
use golang_tools.App.Flags.{
  Field, string_kind, Pointer, nothing, nil_to, points_to, Flag, Setting, parse_structs,
  ConfigError, parse_config_file,
}
use golang_tools.App.Tasks.{
  Failure, callee, init_task, app_init, config, Task, App, new_app, run_tasks, stop_app,
}

-- `global_id`, `service_name` and `boot_config_file`
abbrev pub global_id : Text
global_id = 103 ∷ 108 ∷ 111 ∷ 98 ∷ 97 ∷ 108 ∷ 95 ∷ 105 ∷ 100 ∷ []

abbrev pub service_name : Text
service_name = 115 ∷ 101 ∷ 114 ∷ 118 ∷ 105 ∷ 99 ∷ 101 ∷ 95 ∷ 110 ∷ 97 ∷ 109 ∷ 101 ∷ []

abbrev pub boot_config_file : Text
boot_config_file =
    98 ∷ 111 ∷ 111 ∷ 116 ∷ 95 ∷ 99 ∷ 111 ∷ 110 ∷ 102 ∷ 105 ∷ 103 ∷ 95 ∷ 102 ∷ 105 ∷ 108 ∷ 101 ∷ []

abbrev flag_field : Text → Field
flag_field key = record {
  flag_tag = some key;
  desc_tag = [];
  default_tag = some [];
  kind = string_kind;
}

-- The fields of GlobalCmdFlag; the descriptions are left out.
abbrev pub global_cmd_flag : List Field
global_cmd_flag = flag_field global_id ∷ flag_field service_name ∷ flag_field boot_config_file ∷ []

-- AppOutSideInfo. The options are those that AddOptions collects.
pub record AppOutSide (W : Type 0) : Type 0 where
  pub name : Text
  pub init_func : Option (App W → W → (App W × W) × Option Failure)
  pub options : List (App W → App W)

-- `has_cmd_flag` says whether cmdParameterTable is set; a pointer that is not set is nil.
pub record Registry (W C : Type 0) : Type 0 where
  pub has_cmd_flag : Bool
  pub custom_cmd_flag : Pointer
  pub boot_config : Option C
  pub init_tasks : List (Task W)
  pub out_sides : List (AppOutSide W)
  pub apps : List (App W)

-- The registry, the flags of the process, and what the tasks act upon.
pub record Process (W C : Type 0) : Type 0 where
  pub registry : Registry W C
  pub flags : List Flag
  pub world : W

-- What other packages do: the settings of flags, the path that flag.Parse leaves in BootConfigFile, the
-- file system and the YAML parser, and what the running applications do until Run goes on.
pub record Outside (W C : Type 0) : Type 0 where
  pub setting : Setting
  pub boot_path : List Flag → Text
  pub read_file : Text → Option Text
  pub unmarshal : Text → C → C × Bool
  pub running : List (App W) → W → W

-- What Run waits for: a signal, or the error of an application.
pub data Event : Type 0 where
  signalled : Event
  stopped : Text → Failure → Event

abbrev pub as_failure : Option ConfigError → Option Failure
as_failure none = none
as_failure (some e) = some config

-- What Run returns at its end; `err` is the variable err of Run, not the field of the event.
abbrev pub returned : Event → Option Failure → Option Failure
returned signalled err = none
returned (stopped name e) err = err

module _ {W : Type 0} where
  abbrev pub new_apps : List (AppOutSide W) → List (App W)
  new_apps [] = []
  new_apps (o ∷ os) = new_app o.name ∷ new_apps os

  abbrev pub boot_configs : List (App W) → List Pointer
  boot_configs [] = []
  boot_configs (a ∷ more) = elim a.boot_config [
    | none ↦ boot_configs more
    | some p ↦ p ∷ boot_configs more
  ]

  -- The state of initApps is the applications that it has passed, the world, and those to come.
  abbrev pub pass_app :
      App W → Run (List (App W) × W) (Option Failure) → Run (List (App W) × W) (Option Failure)
  pass_app a (done (more, w) err) = done (a ∷ more, w) err
  pass_app a (panic e (more, w)) = panic e (a ∷ more, w)
  pass_app a stuck = stuck

  abbrev pub run_init :
      Option (App W → W → (App W × W) × Option Failure) → App W → W → (App W × W) × Option Failure
  run_init none a w = ((a, w), none)
  run_init (some f) a w = f a w

  -- The loop of initApps over the applications, with the appOutSides at the same places.
  unfoldable pub init_apps :
      List (AppOutSide W) → List (App W) → W → Run (List (App W) × W) (Option Failure)
  init_apps outs [] w = done ([], w) none
  init_apps [] (a ∷ more) w = panic index_out_of_range (a ∷ more, w)
  init_apps (o ∷ outs) (a ∷ more) w =
      let ((a', w'), err) = run_init o.init_func a w in
      elim err [
        | none ↦ pass_app a' (init_apps outs more w')
        | some e ↦ done (a' ∷ more, w') (some (app_init a.name e))
      ]

  -- Stop
  unfoldable pub stop_apps : List (App W) → W → Run W (Unit {0})
  stop_apps [] w = done w tt
  stop_apps (a ∷ more) w = after (stop_app a w) (λ w' _. stop_apps more w')

module _ {W C : Type 0} where
  abbrev pub new_registry : Registry W C
  new_registry = record {
    has_cmd_flag = false;
    custom_cmd_flag = nothing;
    boot_config = none;
    init_tasks = [];
    out_sides = [];
    apps = [];
  }

  abbrev pub apply_options : List (Registry W C → Registry W C) → Registry W C → Registry W C
  apply_options [] r = r
  apply_options (o ∷ os) r = apply_options os (o r)

  unfoldable pub add_init_task :
      Text → Option (W → W × Option Failure) → Registry W C → Registry W C
  add_init_task desc none r = r
  add_init_task desc (some f) r = record r {
    init_tasks = r.init_tasks ++ (record { desc = desc; execute = f } ∷ []);
  }

  unfoldable pub add_app_out_side : List (AppOutSide W) → Registry W C → Registry W C
  add_app_out_side outs r = record r { out_sides = r.out_sides ++ outs }

  abbrev pub cmd_pointer : Registry W C → Pointer
  cmd_pointer r = if r.has_cmd_flag then points_to global_cmd_flag else nil_to global_cmd_flag

  abbrev pub lift_flags : Process W C → Run (List Flag) (Unit {0}) → Run (Process W C) (Unit {0})
  lift_flags p (done fs x) = done (record p { flags = fs }) x
  lift_flags p (panic e fs) = panic e (record p { flags = fs })
  lift_flags p stuck = stuck

  -- The call of ParseWithConfigFileContent, unless the path is empty.
  abbrev pub load_file : Outside W C → Process W C → C → Text → Run (Process W C) (Option Failure)
  load_file out p old [] = done p none
  load_file out p old (c ∷ path) =
      let (new, err) = parse_config_file out.read_file out.unmarshal (c ∷ path) old in
      done (record p { registry = record (p.registry) { boot_config = some new } }) (as_failure err)

  -- The part of initialize that reads the configuration file.
  abbrev pub load_config : Outside W C → Process W C → Option C → Run (Process W C) (Option Failure)
  load_config out p none = done p none
  load_config out p (some old) =
      if p.registry.has_cmd_flag
      then load_file out p old (out.boot_path p.flags)
      else panic nil_pointer p

  unfoldable pub initialize : Outside W C → Process W C → Run (Process W C) (Option Failure)
  initialize out p =
      let made = new_apps p.registry.out_sides in
      let r = record (p.registry) { apps = p.registry.apps ++ made } in
      let pointers = cmd_pointer r ∷ r.custom_cmd_flag ∷ boot_configs made in
      after (lift_flags (record p { registry = r }) (parse_structs out.setting pointers p.flags))
        (λ p' _. load_config out p' r.boot_config)

  -- The return behind Stop, unless that panics.
  abbrev pub with_stopped :
      Process W C → Option Failure → Run W (Unit {0}) → Run (Process W C) (Option Failure)
  with_stopped p err (done w x) = done (record p { world = w }) err
  with_stopped p err (panic e w) = panic e (record p { world = w })
  with_stopped p err stuck = stuck

  -- Run, from where the applications are started; Stop is deferred.
  abbrev pub serve :
      Outside W C → Event → Option Failure → Process W C → Run (Process W C) (Option Failure)
  serve out event err p =
      let apps = p.registry.apps in
      with_stopped p (returned event err) (stop_apps apps (out.running apps p.world))

  abbrev pub with_apps :
      Process W C → Run (List (App W) × W) (Option Failure) → Run (Process W C) (Option Failure)
  with_apps p (done (more, w) err) =
      done (record p { registry = record (p.registry) { apps = more }; world = w }) err
  with_apps p (panic e (more, w)) =
      panic e (record p { registry = record (p.registry) { apps = more }; world = w })
  with_apps p stuck = stuck

  -- A return of an error, or the next phase.
  abbrev pub unless_failed :
      Option Failure
      → Process W C
      → Run (Process W C) (Option Failure)
      → Run (Process W C) (Option Failure)
  unless_failed none p next = next
  unless_failed (some e) p next = done p (some e)

  -- Run, from behind initialize.
  abbrev pub run_phases : Outside W C → Event → Process W C → Run (Process W C) (Option Failure)
  run_phases out event p =
      let (w, err) = run_tasks init_task p.registry.init_tasks p.world in
      let q = record p { world = w } in
      unless_failed err q (
        after (with_apps q (init_apps q.registry.out_sides q.registry.apps w))
          (λ q' err'. unless_failed err' q' (serve out event err' q')))

  unfoldable pub run : Outside W C → Event → Process W C → Run (Process W C) (Option Failure)
  run out event p =
      after (initialize out p) (λ p' err. unless_failed err p' (run_phases out event p'))
