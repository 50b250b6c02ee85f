-- ===== src/Zlog/Caller.antt =====
-- trimmedPath of zlog/caller_path.go: the end of a caller's path, for the log.
pub mod Trimmed
use golang_tools.Base.{
  ℕ, suc, ◌+◌, ◌==◌, if◌then◌else◌, Bool, List, [], ◌∷◌, ◌++◌, take, drop, Option, none, some,
}
use golang_tools.Zlog.Names.{Text}

-- `/` and `:`
abbrev pub slash : ℕ
slash = 47

abbrev pub colon : ℕ
colon = 58

abbrev pub index_on : Bool → Option ℕ → Option ℕ
index_on here (some i) = some (suc i)
index_on here none = if here then some 0 else none

-- `strings.LastIndexByte`, `none` for -1
unfoldable pub last_index : ℕ → Text → Option ℕ
last_index b [] = none
last_index b (c ∷ cs) = index_on (c == b) (last_index b cs)

-- What zap says of a caller: `full_path` is the result of FullPath.
pub record Caller : Type 0 where
  pub defined : Bool
  pub file : Text
  pub line : Text
  pub full_path : Text

-- The three searches of trimmedPath, each by the result of the search; the last makes the path.
abbrev pub at_third : Caller → Option ℕ → Text
at_third ec none = ec.full_path
at_third ec (some i) = drop (i + 1) ec.file ++ (colon ∷ ec.line)

abbrev pub at_second : Caller → Option ℕ → Text
at_second ec none = ec.full_path
at_second ec (some i) = at_third ec (last_index slash (take i ec.file))

abbrev pub at_last : Caller → Option ℕ → Text
at_last ec none = ec.full_path
at_last ec (some i) = at_second ec (last_index slash (take i ec.file))

-- `undefined`
abbrev pub undefined_text : Text
undefined_text = 117 ∷ 110 ∷ 100 ∷ 101 ∷ 102 ∷ 105 ∷ 110 ∷ 101 ∷ 100 ∷ []

unfoldable pub trimmed_path : Caller → Text
trimmed_path ec = if ec.defined then at_last ec (last_index slash ec.file) else undefined_text
