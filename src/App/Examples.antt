-- ===== src/App/Examples.antt =====
-- The theorems about the registry at concrete inputs. The tasks act upon a number.
use golang_tools.Base.{ℕ, ◌+◌, ◌*◌, ◌≡◌, refl, arith, Bool, true, false, List, [], ◌∷◌, none, some}
use golang_tools.Base.Int.{pos}
use golang_tools.Base.Run.{done, Panics, Ensures, Returns}
use golang_tools.App.Flags.{
  Field, int_kind, string_kind, bool_kind, Pointer, nothing, nil_to, points_to, Flag, Setting,
  parse_struct,
}
use golang_tools.App.Flags.Described.{Registers, parse_struct-Registers}
use golang_tools.App.Tasks.{
  Failure, callee, init_task, Task, Service, App, new_app, add_service, run_tasks, run_tasks_stops,
}
use golang_tools.App.Registry.{
  AppOutSide, new_registry, Process, Outside, stopped, initialize, init_apps, run, stop_apps,
}
use golang_tools.App.Registry.Starts.{run_unset-Panics}
use golang_tools.App.Registry.Errors.{IsEarly, run-IsEarly}
use golang_tools.App.Registry.Again.{NotStarted, run_again-NotStarted}

abbrev setting : Setting
setting = record { env = λ key. none; atoi = λ v. pos 0; parse_int = λ v. pos 0 }

-- `port`, an integer, and a field without a tag
abbrev fields : List Field
fields =
    record {
      flag_tag = some (112 ∷ 111 ∷ 114 ∷ 116 ∷ []);
      desc_tag = [];
      default_tag = some [];
      kind = int_kind;
    }
    ∷ record { flag_tag = none; desc_tag = []; default_tag = none; kind = string_kind }
    ∷ []

parse_struct-Registers_example :
    (gs : List Flag) × (parse_struct setting (points_to fields) [] ≡ done gs tt)
    × Registers setting fields gs
parse_struct-Registers_example = parse_struct-Registers setting fields [] (tt, (tt, tt)) (refl, tt)

abbrev counts : Task ℕ
counts = record { desc = []; execute = λ w. (w + 1, none) }

abbrev fails : Task ℕ
fails = record { desc = 120 ∷ []; execute = λ w. (w + 5, some (callee w)) }

abbrev service : Service ℕ
service = record { stop = λ w. (w * 2, true) }

abbrev out_side : AppOutSide ℕ
out_side = record {
  name = 97 ∷ [];
  init_func = some (λ a w. ((record a { service_tasks = service ∷ [] }, w + 1), none));
  options = [];
}

abbrev outside : Outside ℕ ℕ
outside = record {
  setting = setting;
  boot_path = λ fs. [];
  read_file = λ path. none;
  unmarshal = λ content c. (c, false);
  running = λ apps w. w + 10;
}

abbrev process : Bool → List (App ℕ) → Process ℕ ℕ
process set apps = record {
  registry = record new_registry {
    has_cmd_flag = set;
    init_tasks = counts ∷ [];
    out_sides = out_side ∷ [];
    apps = apps;
  };
  flags = [];
  world = 0;
}

run_unset-Panics_example : Panics (run outside (stopped [] (callee 3)) (process false []))
run_unset-Panics_example = run_unset-Panics outside (stopped [] (callee 3)) (process false []) refl

abbrev old_app : App ℕ
old_app = new_app (98 ∷ [])

run_again-NotStarted_example :
    NotStarted (run outside (stopped [] (callee 3)) (process true (old_app ∷ [])))
run_again-NotStarted_example =
    run_again-NotStarted outside (stopped [] (callee 3)) (process true (old_app ∷ [])) (omega arith)

abbrev running_app : App ℕ
running_app = record (new_app (97 ∷ [])) { service_tasks = service ∷ [] }

run-IsEarly_example :
    Ensures (λ _ err. IsEarly err) (run outside (stopped (97 ∷ []) (callee 3)) (process true []))
run-IsEarly_example = run-IsEarly outside (stopped (97 ∷ []) (callee 3)) (process true [])

-- The application has stopped with an error, and Run returns none.
unreported :
    Returns (run outside (stopped (97 ∷ []) (callee 3)) (process true [])) (λ _ err. err ≡ none)
unfolding run initialize init_apps run_tasks stop_apps golang_tools.App.Tasks.stop_app
    golang_tools.App.Flags.parse_structs golang_tools.App.Flags.parse_struct
    golang_tools.App.Flags.parse_fields golang_tools.App.Flags.define_flag
unreported = refl

-- The applications' stop doubles the number.
stop_run : stop_apps (running_app ∷ []) 12 ≡ done 24 tt
unfolding stop_apps golang_tools.App.Tasks.stop_app
stop_run = refl
