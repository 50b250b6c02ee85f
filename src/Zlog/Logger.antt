-- ===== src/Zlog/Logger.antt =====
-- Write, Close and Rotate of zlog/lumberjack.go, over a file system whose answers are given.
pub mod Calls
use golang_tools.Base.{
  ℕ, ◌+◌, ◌*◌, if◌then◌else◌, Bool, true, false, List, length, Option, none, some,
}
use golang_tools.Base.Int.{ℤ, pos, is_zero, ltb_ℤ, ◌*ℤ◌}
use golang_tools.Base.Word.{wrap64}
use golang_tools.Zlog.Names.{Text}

-- What os.Stat says of a file.
pub data Stat : Type 0 where
  size_is : ℕ → Stat
  not_exist stat_error : Stat

-- The answers of the operating system during one call: whether MkdirAll, the two OpenFile and Close
-- succeed, what Stat says, the name for the current time, and how many bytes Write takes, with or
-- without an error.
pub record System : Type 0 where
  pub mkdir_ok : Bool
  pub create_ok : Bool
  pub append_ok : Bool
  pub close_ok : Bool
  pub stat : Stat
  pub now_name : Text
  pub takes : List ℕ → ℕ
  pub write_ok : Bool

pub data Failure : Type 0 where
  too_long no_directory not_created no_info not_closed not_written : Failure

-- The fields that the calls read or change. `file` is the name under which the open file was opened.
-- The channel millCh has room for one signal, which `milling` says to be there.
pub record Logger : Type 0 where
  pub max_size : ℤ
  pub size : ℕ
  pub file : Option Text
  pub started : Bool
  pub milling : Bool

-- max: MaxSize in bytes, as an int64, 100 megabytes by default.
abbrev pub max_bytes : Logger → ℤ
max_bytes l =
    if is_zero l.max_size
    then pos (100 * (1024 * 1024))
    else wrap64 (l.max_size *ℤ pos (1024 * 1024))

-- mill: a signal that is still there makes room for no other.
unfoldable pub mill : Logger → Logger
mill l = record l { started = true; milling = true }

unfoldable pub open_new : System → Logger → Logger × Option Failure
open_new sys l =
    if sys.mkdir_ok
    then (if sys.create_ok
        then (record l { file = some sys.now_name; size = 0 }, none)
        else (l, some not_created))
    else (l, some no_directory)

unfoldable pub open_existing_or_new : System → Logger → Logger × Option Failure
open_existing_or_new sys l = elim sys.stat [
  | not_exist ↦ open_new sys (mill l)
  | stat_error ↦ (mill l, some no_info)
  | size_is n ↦
      if sys.append_ok
      then (record (mill l) { file = some sys.now_name; size = n }, none)
      else open_new sys (mill l)
]

-- The last part of Write, on an open file.
abbrev pub append : System → List ℕ → Logger → Logger × (ℕ × Option Failure)
append sys p l = (
  record l { size = l.size + sys.takes p },
  (sys.takes p, (if sys.write_ok then none else some not_written)),
)

abbrev pub opened : System → List ℕ → Logger × Option Failure → Logger × (ℕ × Option Failure)
opened sys p (l, none) = append sys p l
opened sys p (l, some e) = (l, (0, some e))

unfoldable pub write : System → List ℕ → Logger → Logger × (ℕ × Option Failure)
write sys p l =
    if ltb_ℤ (max_bytes l) (pos (length p)) then (l, (0, some too_long)) else elim l.file [
      | none ↦ opened sys p (open_existing_or_new sys l)
      | some name ↦ append sys p l
    ]

unfoldable pub close : System → Logger → Logger × Option Failure
close sys l = elim l.file [
  | none ↦ (l, none)
  | some name ↦ (record l { file = none }, (if sys.close_ok then none else some not_closed))
]

abbrev pub milled : Logger × Option Failure → Logger × Option Failure
milled (l, none) = (mill l, none)
milled (l, some e) = (l, some e)

abbrev pub reopened : System → Logger × Option Failure → Logger × Option Failure
reopened sys (l, none) = milled (open_new sys l)
reopened sys (l, some e) = (l, some e)

unfoldable pub rotate : System → Logger → Logger × Option Failure
rotate sys l = reopened sys (close sys l)
