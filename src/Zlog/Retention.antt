-- ===== src/Zlog/Retention.antt =====
-- millRunOnce and oldLogFiles of zlog/lumberjack.go: which old files are removed and compressed.
pub mod Selection
pub mod Forgotten
pub mod Newest
pub mod Age
use golang_tools.Base.{
  ℕ, suc, ◌-◌, ltb, ◌==◌, if◌then◌else◌, Bool, true, false, ◌&&◌, ◌||◌, not, List, [], ◌∷◌, ◌++◌,
  ◌*◌, length, take, Option, none, some,
}
use golang_tools.Base.Int.{ℤ, pos, negsuc, pos_part, ltb_ℤ, is_zero, ◌+ℤ◌, ◌*ℤ◌}
use golang_tools.Base.Word.{wrap64}
use golang_tools.Zlog.Names.{
  Text, text_eq, has_suffix, Parsed, time, mismatched_prefix, mismatched_extension, not_a_time,
  sliced, time_from_name, prefix_and_ext,
}

-- compressSuffix
abbrev pub compress_suffix : Text
compress_suffix = 46 ∷ 103 ∷ 122 ∷ []

-- logInfo
pub record LogInfo : Type 0 where
  pub timestamp : ℕ
  pub name : Text

-- An entry of the directory.
pub record Entry : Type 0 where
  pub is_dir : Bool
  pub file : Text

abbrev pub contains : Text → List Text → Bool
contains t [] = false
contains t (u ∷ us) = text_eq t u || contains t us

-- `preserved[fn] = true`
abbrev pub mark : Text → List Text → List Text
mark t us = if contains t us then us else t ∷ us

-- The name without the suffix of a compressed file.
abbrev pub plain_name : Text → Text
plain_name t =
    if has_suffix t compress_suffix then take (length t - length compress_suffix) t else t

-- The files that stay, and those that go.
pub record Split : Type 0 where
  pub remaining : List LogInfo
  pub remove : List LogInfo

abbrev pub stays : LogInfo → Split → Split
stays f s = record { remaining = f ∷ s.remaining; remove = s.remove }

abbrev pub goes : LogInfo → Split → Split
goes f s = record { remaining = s.remaining; remove = f ∷ s.remove }

-- The loop that keeps `max_backups` names; `preserved` holds those met so far.
unfoldable pub by_count : ℕ → List Text → List LogInfo → Split
by_count max_backups preserved [] = record { remaining = []; remove = [] }
by_count max_backups preserved (f ∷ fs) =
    let preserved' = mark (plain_name f.name) preserved in
    let rest = by_count max_backups preserved' fs in
    if ltb max_backups (length preserved') then goes f rest else stays f rest

-- `f.timestamp.Before(cutoff)`
abbrev pub is_before : LogInfo → ℤ → Bool
is_before f cutoff = ltb_ℤ (pos f.timestamp) cutoff

-- The loop that keeps what is not before the cutoff.
unfoldable pub by_age : ℤ → List LogInfo → Split
by_age cutoff [] = record { remaining = []; remove = [] }
by_age cutoff (f ∷ fs) =
    let rest = by_age cutoff fs in if is_before f cutoff then goes f rest else stays f rest

-- The loop that chooses what to compress.
unfoldable pub uncompressed : List LogInfo → List LogInfo
uncompressed [] = []
uncompressed (f ∷ fs) =
    if not (has_suffix f.name compress_suffix) then f ∷ uncompressed fs else uncompressed fs

-- The settings that millRunOnce reads, and the current time. Times are in nanoseconds.
pub record Settings : Type 0 where
  pub max_backups : ℤ
  pub max_age : ℤ
  pub compress : Bool
  pub now : ℕ

-- `24 * time.Hour`
abbrev pub day : ℕ
day = 24 * 3600 * 1_000_000_000

-- The cutoff. The durations `diff` and `-1 * diff` are int64.
unfoldable pub cutoff_time : ℤ → ℕ → ℤ
cutoff_time max_age now = pos now +ℤ wrap64 (negsuc 0 *ℤ wrap64 (pos day *ℤ max_age))

pub record Work : Type 0 where
  pub kept : List LogInfo
  pub remove : List LogInfo
  pub compress : List LogInfo

-- The choice that millRunOnce makes from the old files.
unfoldable pub choose : Settings → List LogInfo → Work
choose c files =
    let counted =
      (if ltb_ℤ (pos 0) c.max_backups && ltb_ℤ c.max_backups (pos (length files))
        then by_count (pos_part c.max_backups) [] files
        else record { remaining = files; remove = [] }) in
    let aged =
      (if ltb_ℤ (pos 0) c.max_age
        then by_age (cutoff_time c.max_age c.now) counted.remaining
        else record { remaining = counted.remaining; remove = [] }) in
    record {
      kept = aged.remaining;
      remove = counted.remove ++ aged.remove;
      compress = (if c.compress then uncompressed aged.remaining else []);
    }

-- `logFiles = append(logFiles, logInfo{t, f})`
abbrev pub found : Text → ℕ → Option (List LogInfo) → Option (List LogInfo)
found name t none = none
found name t (some fs) = some (record { timestamp = t; name = name } ∷ fs)

-- What a result of timeFromName makes of a file; `other` is what comes next if it has no time.
abbrev pub listed :
    Text → Option (List LogInfo) → Option (List LogInfo) → Parsed → Option (List LogInfo)
listed name rest other (time t) = found name t rest
listed name rest other sliced = none
listed name rest other mismatched_prefix = other
listed name rest other mismatched_extension = other
listed name rest other not_a_time = other

-- The loop of oldLogFiles, before the sort. `none` is the panic of timeFromName.
unfoldable pub recognise : (Text → Option ℕ) → Text → Text → List Entry → Option (List LogInfo)
recognise parse prefix ext [] = some []
recognise parse prefix ext (e ∷ es) =
    let rest = recognise parse prefix ext es in
    let compressed =
      listed e.file rest rest (time_from_name parse e.file prefix (ext ++ compress_suffix)) in
    if e.is_dir
    then rest
    else listed e.file rest compressed (time_from_name parse e.file prefix ext)

-- oldLogFiles. `listing` is what ioutil.ReadDir returns, `none` for its error; `sort` is sort.Sort by
-- Less of byFormatTime; `current` is the base of the current file name. The result is `none` if the
-- directory cannot be read, or if timeFromName panics.
unfoldable pub old_log_files :
    (Text → Option ℕ)
    → (List LogInfo → List LogInfo)
    → Text
    → Option (List Entry)
    → Option (List LogInfo)
old_log_files parse sort current none = none
old_log_files parse sort current (some entries) =
    let (prefix, ext) = prefix_and_ext current in
    elim (recognise parse prefix ext entries) [ none ↦ none | some fs ↦ some (sort fs) ]

-- The errors of a run: that of os.Remove for each file to remove, then that of compressLogFile for
-- each to compress. The first is returned.
unfoldable pub first_error : (Text → Option ℕ) → Option ℕ → List LogInfo → Option ℕ
first_error act err [] = err
first_error act err (f ∷ fs) = first_error act (elim err [ none ↦ act f.name | some e ↦ some e ]) fs

unfoldable pub mill_run_once :
    (Text → Option ℕ) → (Text → Option ℕ) → Settings → Option (List LogInfo) → Work × Option ℕ
mill_run_once remove_file compress_file c files =
    let nothing : Work = record { kept = []; remove = []; compress = [] } in
    if is_zero c.max_backups && (is_zero c.max_age && not c.compress)
    then (nothing, none)
    else elim files [
      | none ↦ (nothing, some 0)
      | some fs ↦
          (let w = choose c fs in
            (w, first_error compress_file (first_error remove_file none w.remove) w.compress))
    ]
