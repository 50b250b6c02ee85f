-- ===== src/Zlog/Names.antt =====
-- The names of log files in zlog/lumberjack.go: backupName, prefixAndExt and timeFromName. A text is
-- the list of its bytes.
pub mod Dated
pub use golang_tools.Base.Texts.{Text, text_eq}
use golang_tools.Base.{
  ℕ, suc, ◌+◌, ◌-◌, ltb, leb, ◌==◌, if◌then◌else◌, Bool, true, false, ◌&&◌, ◌||◌, not, List, [],
  ◌∷◌, ◌++◌, length, take, drop, Option, none, some,
}

-- `strings.HasPrefix(s, prefix)` and `strings.HasSuffix(s, suffix)`
abbrev pub has_prefix : Text → Text → Bool
has_prefix s prefix = leb (length prefix) (length s) && text_eq (take (length prefix) s) prefix

abbrev pub has_suffix : Text → Text → Bool
has_suffix s suffix =
    leb (length suffix) (length s) && text_eq (drop (length s - length suffix) s) suffix

-- `-` and `.`
abbrev pub dash : ℕ
dash = 45

abbrev pub dot : ℕ
dot = 46

abbrev pub has_dot : Text → Bool
has_dot [] = false
has_dot (c ∷ cs) = c == dot || has_dot cs

-- `filepath.Ext` of a name without a directory: what begins at the last dot.
abbrev pub ext_of : Text → Text
ext_of [] = []
ext_of (c ∷ cs) = if c == dot && not (has_dot cs) then c ∷ cs else ext_of cs

-- The file name that backupName makes in the directory, from the base of Filename and the formatted
-- time.
unfoldable pub backup_name : Text → Text → Text
backup_name filename timestamp =
    let ext = ext_of filename in
    let prefix = take (length filename - length ext) filename in
    prefix ++ (dash ∷ (timestamp ++ ext))

-- prefixAndExt, from the base of the current file name.
unfoldable pub prefix_and_ext : Text → Text × Text
prefix_and_ext current =
    let ext = ext_of current in (take (length current - length ext) current ++ (dash ∷ []), ext)

-- The results of timeFromName. `sliced` is the panic of a slice whose ends cross.
pub data Parsed : Type 0 where
  time : ℕ → Parsed
  mismatched_prefix mismatched_extension not_a_time sliced : Parsed

abbrev pub parsed : Option ℕ → Parsed
parsed none = not_a_time
parsed (some t) = time t

-- `parse` is time.Parse with the logger's format.
unfoldable pub time_from_name : (Text → Option ℕ) → Text → Text → Text → Parsed
time_from_name parse filename prefix ext =
    if not (has_prefix filename prefix)
    then mismatched_prefix
    else if not (has_suffix filename ext)
    then mismatched_extension
    else if ltb (length filename - length ext) (length prefix)
    then sliced
    else parsed (parse (drop (length prefix) (take (length filename - length ext) filename)))
