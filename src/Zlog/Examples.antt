-- ===== src/Zlog/Examples.antt =====
-- The theorems about log files at concrete inputs.
use golang_tools.Base.{
  ℕ, ◌+◌, ◌-◌, ◌*◌, ◌≡◌, refl, true, false, List, [], ◌∷◌, length, Option, none, some,
}
use golang_tools.Base.Int.{pos}
use golang_tools.Zlog.Caller.{Caller}
use golang_tools.Base.{if◌then◌else◌}
use golang_tools.Base.Texts.{text_eq}
use golang_tools.Zlog.Compress.{Answers, Files, compress_log_file}
use golang_tools.Zlog.Compress.Safe.{Outcome, Outcome-compress_log_file}
use golang_tools.Zlog.Names.{Text}
use golang_tools.Zlog.Names.Dated.{dated}
use golang_tools.Zlog.Retention.{LogInfo, Settings, by_count, old_log_files}
use golang_tools.Zlog.Retention.Forgotten.{old_log_files_none}
use golang_tools.Zlog.Logger.{not_exist, System, Logger, max_bytes}
use golang_tools.Zlog.Logger.Calls.{writes, added, writes-keep}

abbrev two_digits : Text → Option ℕ
two_digits (a ∷ b ∷ []) = some ((a - 48) * 10 + (b - 48))
two_digits t = none

-- `app`, `21`, `22` and `log`
abbrev app : Text
app = 97 ∷ 112 ∷ 112 ∷ []

abbrev day_21 : Text
day_21 = 50 ∷ 49 ∷ []

abbrev day_22 : Text
day_22 = 50 ∷ 50 ∷ []

abbrev log : Text
log = 108 ∷ 111 ∷ 103 ∷ []

old_log_files_none_example :
    old_log_files two_digits
      (λ fs. fs)
      (dated app day_22 log)
      (some (record { is_dir = false; file = dated app day_21 log } ∷ []))
    ≡ some []
old_log_files_none_example =
    old_log_files_none two_digits (λ fs. fs) app day_22 log
      (record { is_dir = false; file = dated app day_21 log } ∷ []) refl
      ((day_21, log, refl, refl), tt)

abbrev old_files : List LogInfo
old_files =
    record { timestamp = 22; name = dated app day_22 log }
    ∷ record { timestamp = 21; name = dated app day_21 log }
    ∷ []

by_count_run : length (by_count 1 [] old_files).remaining ≡ 1
unfolding by_count
by_count_run = refl

abbrev settings : Settings
settings = record { max_backups = pos 5; max_age = pos 3; compress = false; now = 22 }

abbrev sys : System
sys = record {
  mkdir_ok = true;
  create_ok = true;
  append_ok = true;
  close_ok = true;
  stat = not_exist;
  now_name = dated app day_22 log;
  takes = length;
  write_ok = true;
}

abbrev logger : Logger
logger = record {
  max_size = pos 1;
  size = 5;
  file = some (dated app day_21 log);
  started = true;
  milling = false;
}

writes-keep_example :
    ((writes ((sys, 1 ∷ []) ∷ (sys, 2 ∷ 3 ∷ []) ∷ []) logger).file ≡ some (dated app day_21 log))
    × ((writes ((sys, 1 ∷ []) ∷ (sys, 2 ∷ 3 ∷ []) ∷ []) logger).size
        ≡ 5 + added (max_bytes logger) ((sys, 1 ∷ []) ∷ (sys, 2 ∷ 3 ∷ []) ∷ []))
writes-keep_example =
    writes-keep ((sys, 1 ∷ []) ∷ (sys, 2 ∷ 3 ∷ []) ∷ []) (dated app day_21 log) logger refl

-- `s/a/b/c` at line 7
abbrev caller : Caller
caller = record {
  defined = true;
  file = 115 ∷ 47 ∷ 97 ∷ 47 ∷ 98 ∷ 47 ∷ 99 ∷ [];
  line = 55 ∷ [];
  full_path = [];
}

-- Compression whose last call, the removal of the old file, fails.
abbrev compress_answers : Answers
compress_answers = record {
  open_ok = true;
  stat_ok = true;
  truncate_ok = true;
  chown_ok = true;
  create_ok = true;
  copy_ok = true;
  finish_ok = true;
  close_new_ok = true;
  close_old_ok = true;
  remove_ok = false;
  remove_new_ok = true;
  partial = [];
}

abbrev one_file : Files
one_file n = if text_eq (1 ∷ []) n then some (5 ∷ []) else none

Outcome-compress_log_file_example :
    Outcome
      (λ x. 9 ∷ x)
      (1 ∷ [])
      (2 ∷ [])
      (5 ∷ [])
      (compress_log_file (λ x. 9 ∷ x) compress_answers (1 ∷ []) (2 ∷ []) one_file)
Outcome-compress_log_file_example =
    Outcome-compress_log_file (λ x. 9 ∷ x) (1 ∷ []) (2 ∷ []) (5 ∷ []) compress_answers one_file refl
      refl
