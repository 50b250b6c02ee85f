-- ===== src/Zlog/Runs.antt =====
-- The theorems about the clearing of old files at concrete inputs.
use mathlib.Core.List.{Perm}
use golang_tools.Base.{
  ℕ, ◌+◌, ◌-◌, ◌*◌, ◌≤◌, ◌≡◌, refl, arith, true, false, List, [], ◌∷◌, ◌++◌, All, length, Option,
  none, some,
}
use golang_tools.Base.Int.{pos}
use golang_tools.Zlog.Names.{Text, prefix_and_ext, time_from_name}
use golang_tools.Zlog.Retention.{
  LogInfo, Entry, Settings, by_age, by_count, cutoff_time, choose, recognise, old_log_files,
}
use golang_tools.Zlog.Retention.Newest.{AreNoNewer, choose-old_log_files}
use golang_tools.Zlog.Retention.Age.{not_older, choose_young_days, choose_overflow}
use golang_tools.Zlog.Sorting.{sort_files, sort_files-IsSort}
use golang_tools.Zlog.Logger.{not_exist, System, Logger, Failure, write, rotate}
use golang_tools.Zlog.Mill.{
  idle, busy, Shared, Event, called, begun, writes, rotates, takes, Reach, here, later, owed,
  rotate_mills, under_way, at_work, Reach-Accounted,
}

abbrev two_digits : Text → Option ℕ
two_digits (a ∷ b ∷ []) = some ((a - 48) * 10 + (b - 48))
two_digits t = none

-- `a.l`, `a-21.l` and `a-22.l`
abbrev current : Text
current = 97 ∷ 46 ∷ 108 ∷ []

abbrev name_21 : Text
name_21 = 97 ∷ 45 ∷ 50 ∷ 49 ∷ 46 ∷ 108 ∷ []

abbrev name_22 : Text
name_22 = 97 ∷ 45 ∷ 50 ∷ 50 ∷ 46 ∷ 108 ∷ []

abbrev entries : List Entry
entries =
    record { is_dir = false; file = name_21 }
    ∷ record { is_dir = true; file = name_22 }
    ∷ record { is_dir = false; file = name_22 }
    ∷ record { is_dir = false; file = current }
    ∷ []

abbrev files : List LogInfo
files = record { timestamp = 22; name = name_22 } ∷ record { timestamp = 21; name = name_21 } ∷ []

abbrev one_backup : Settings
one_backup = record { max_backups = pos 1; max_age = pos 0; compress = false; now = 30 }

abbrev aged : ℕ → Settings
aged days = record { max_backups = pos 0; max_age = pos days; compress = false; now = 30 }

files_lem : old_log_files two_digits sort_files current (some entries) ≡ some files
unfolding old_log_files recognise prefix_and_ext time_from_name
files_lem = refl

choose-old_log_files_example :
    AreNoNewer (choose one_backup files).kept (choose one_backup files).remove
    × ((fs : List LogInfo) × (recognise two_digits
            (prefix_and_ext current).0
            (prefix_and_ext current).1
            entries
          ≡ some fs)
        × Perm ((choose one_backup files).kept ++ (choose one_backup files).remove) fs)
choose-old_log_files_example =
    choose-old_log_files two_digits sort_files current entries one_backup files sort_files-IsSort
      files_lem

-- One file is kept and one removed.
choose_run : (choose one_backup files).kept ≡ record { timestamp = 22; name = name_22 } ∷ []
unfolding choose by_count
choose_run = refl

choose_young_days_example :
    (choose (aged 1) files).kept
    ≡ not_older
        (1 * (24 * 3600 * 1_000_000_000))
        30
        (choose (record (aged 1) { max_age = pos 0 }) files).kept
choose_young_days_example = choose_young_days (aged 1) 1 files refl (omega arith) (omega arith)

choose_overflow_example : (choose (aged 106_752) files).kept ≡ []
choose_overflow_example =
    choose_overflow (aged 106_752) 106_752 files refl (omega arith) (omega arith)
      (omega arith, (omega arith, tt))

-- With one day less both files stay.
choose_kept_run : length (choose (aged 106_751) files).kept ≡ 2
unfolding choose by_age cutoff_time golang_tools.Base.Word.wrap64 golang_tools.Base.Int.◌+ℤ◌
    golang_tools.Base.Int.◌*ℤ◌
choose_kept_run = refl

abbrev sys : System
sys = record {
  mkdir_ok = true;
  create_ok = true;
  append_ok = true;
  close_ok = true;
  stat = not_exist;
  now_name = name_22;
  takes = length;
  write_ok = true;
}

abbrev new_logger : Shared
new_logger = record {
  logger = record { max_size = pos 1; size = 0; file = none; started = false; milling = false };
  runner = idle;
}

abbrev written : Logger
written = (write sys (1 ∷ 2 ∷ []) new_logger.logger).0

-- The signal of the write is taken.
abbrev taken : Logger
taken = record written { milling = false }

-- A write that opens the file, the beginning of a run, and a rotation before its end; the last one first.
abbrev events : List Event
events = called (rotate_mills sys taken) ∷ begun ∷ called true ∷ []

abbrev rotated : Shared
rotated = record { logger = (rotate sys taken).0; runner = busy }

written_lem : written.milling ≡ true
unfolding write golang_tools.Zlog.Logger.open_existing_or_new golang_tools.Zlog.Logger.open_new
    golang_tools.Zlog.Logger.mill golang_tools.Base.Word.wrap64 golang_tools.Base.Int.◌*ℤ◌
written_lem = refl

Reach-rotated : Reach new_logger events rotated
unfolding golang_tools.Base.Word.wrap64 golang_tools.Base.Int.◌*ℤ◌
Reach-rotated =
    later (later (later here (writes sys (1 ∷ 2 ∷ []))) (takes refl written_lem)) (rotates sys)

Reach-Accounted_example :
    (rotated.logger.milling ≡ owed events) × (under_way events ≡ at_work rotated.runner)
Reach-Accounted_example = Reach-Accounted new_logger rotated events refl refl Reach-rotated
