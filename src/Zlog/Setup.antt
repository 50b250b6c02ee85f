-- ===== src/Zlog/Setup.antt =====
-- zlog/im_log.go: NewLogger with its settings, and the functions that log. The package zap is a parameter.
use golang_tools.Base.{ℕ, false, List, [], ◌∷◌, Option, none, some, ◌⊎◌, inl, inr}
use golang_tools.Base.Int.{pos}
use golang_tools.Base.Run.{Run, done, panic, index_out_of_range, raised}
use golang_tools.Zlog.Names.{Text}
use golang_tools.Zlog.Caller.{Caller, trimmed_path}
use golang_tools.Zlog.Logger.{Logger}
use golang_tools.Zlog.Retention.{Settings}

-- The DivisionLogger of logSplitOption; `now` is the current time.
abbrev pub division_logger : Logger
division_logger = record {
  max_size = pos 1;
  size = 0;
  file = none;
  started = false;
  milling = false;
}

abbrev pub division_settings : ℕ → Settings
division_settings now = record {
  max_backups = pos 100;
  max_age = pos 1;
  compress = false;
  now = now;
}

-- DebugLevel is below the others.
pub data Level : Type 0 where
  debug_level info_level warn_level error_level : Level

-- The EncoderConfig of NewLogger: the keys, the layout of times, and what is written of a caller. Levels
-- are in lower case.
pub record EncoderConfig : Type 0 where
  pub message_key : Text
  pub level_key : Text
  pub time_key : Text
  pub caller_key : Text
  pub time_layout : Text
  pub encode_caller : Caller → Text

-- `message`, `level`, `time`, `caller` and `2006-01-02 15:04:05.000000`
abbrev pub encoder_config : EncoderConfig
encoder_config = record {
  message_key = 109 ∷ 101 ∷ 115 ∷ 115 ∷ 97 ∷ 103 ∷ 101 ∷ [];
  level_key = 108 ∷ 101 ∷ 118 ∷ 101 ∷ 108 ∷ [];
  time_key = 116 ∷ 105 ∷ 109 ∷ 101 ∷ [];
  caller_key = 99 ∷ 97 ∷ 108 ∷ 108 ∷ 101 ∷ 114 ∷ [];
  time_layout =
      50 ∷ 48 ∷ 48 ∷ 54 ∷ 45 ∷ 48 ∷ 49 ∷ 45 ∷ 48 ∷ 50 ∷ 32 ∷ 49 ∷ 53 ∷ 58 ∷ 48 ∷ 52 ∷ 58 ∷ 48 ∷ 53
      ∷ 46 ∷ 48 ∷ 48 ∷ 48 ∷ 48 ∷ 48 ∷ 48 ∷ [];
  encode_caller = trimmed_path;
}

-- Where a core writes: the divided file, or the standard output under a lock.
pub data Output : Type 0 where
  to_division : Logger → Output
  to_stdout : Output

pub record Core : Type 0 where
  pub encoder : EncoderConfig
  pub output : Output
  pub level : Level

-- What Build of the package gets, besides the encoding as JSON: the level, the encoder, the frames of callers to
-- skip, the level from which stacks are written, and the cores that logSplitOption puts in place of its own.
pub record ZapConfig : Type 0 where
  pub level : Level
  pub encoder : EncoderConfig
  pub caller_skip : ℕ
  pub stacktrace : Level
  pub cores : List Core

-- logSplitOption. The name of the file is an input of the logger's calls.
unfoldable pub log_split_option : EncoderConfig → List Core
log_split_option encoder =
    record { encoder = encoder; output = to_division division_logger; level = debug_level }
    ∷ record { encoder = encoder; output = to_stdout; level = debug_level }
    ∷ []

-- NewLogger: `build` is Build of the package, and the state is the variable logger, which is nil at first and
-- if Build fails.
unfoldable pub new_logger :
    {L : Type 0} → (ZapConfig → L ⊎ ℕ) → Option L → Run (Option L) (Unit {0})
new_logger build old =
    elim (build (record {
      level = debug_level;
      encoder = encoder_config;
      caller_skip = 1;
      stacktrace = warn_level;
      cores = log_split_option encoder_config;
    })) [ inl l ↦ done (some l) tt | inr e ↦ panic raised none ]

-- An argument: a text, or any other value.
pub data Arg : Type 0 where
  text_arg : Text → Arg
  other_arg : ℕ → Arg

-- `fmt.Sprintf(v[0].(string), v[1:]...)` and the call of the logger: `v[0]` panics if there is no argument,
-- and the assertion if it is no text.
unfoldable pub log_at :
    {W : Type 0}
    → (Text → List Arg → Text)
    → (Level → Text → W → W)
    → Level
    → List Arg
    → W
    → Run W (Unit {0})
log_at sprintf emit level [] w = panic index_out_of_range w
log_at sprintf emit level (text_arg format ∷ args) w = done (emit level (sprintf format args) w) tt
log_at sprintf emit level (other_arg v ∷ args) w = panic raised w
