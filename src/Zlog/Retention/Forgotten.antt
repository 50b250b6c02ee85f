-- ===== src/Zlog/Retention/Forgotten.antt =====
-- oldLogFiles in a directory of the logger's own files.
use golang_tools.Base.{
  ℕ, ◌≡◌, refl, false, List, [], ◌∷◌, ◌++◌, length, All, Option, some, Bool-cases, inl, inr,
}
use golang_tools.Zlog.Names.{Text, dash, dot, has_dot}
use golang_tools.Zlog.Names.Dated.{dated, prefix_and_ext-dated, time_from_name-dated}
use golang_tools.Zlog.Retention.{Entry, LogInfo, compress_suffix, recognise, old_log_files}

-- A file that the logger wrote under this stem, at a time whose text has `n` bytes; the end may be
-- that of a compressed file.
abbrev pub IsLogFile : Text → ℕ → Entry → Type 0
IsLogFile stem n e = (us : Text) × (end : Text) × (length us ≡ n) × (e.file ≡ dated stem us end)

recognise_none :
    (parse : Text → Option ℕ) (stem ts ext : Text) (es : List Entry)
    → All (IsLogFile stem (length ts)) es
    → recognise parse ((stem ++ (dash ∷ ts)) ++ (dash ∷ [])) ext es ≡ some []
unfolding recognise
recognise_none parse stem ts ext [] h = refl
recognise_none parse stem ts ext (e ∷ es) ((us, end, size, name), h) =
    let rest = recognise_none parse stem ts ext es h in
    let plain = time_from_name-dated parse stem ts us end ext size in
    let packed = time_from_name-dated parse stem ts us end (ext ++ compress_suffix) size in
    elim (Bool-cases e.is_dir) [
      | inl dir ↦ rw (dir, rest)
      | inr file ↦ rw (file, name, plain, packed, rest)
    ]

-- In a directory that holds nothing but log files which the logger wrote under its stem, at times whose
-- texts are as long as that of the current time, and directories named so, oldLogFiles finds none of
-- them, whatever time.Parse accepts: it sorts the empty list.
pub old_log_files_none :
    (parse : Text → Option ℕ) (sort : List LogInfo → List LogInfo) (stem ts end : Text)
    (es : List Entry)
    → has_dot end ≡ false
    → All (IsLogFile stem (length ts)) es
    → old_log_files parse sort (dated stem ts end) (some es) ≡ some (sort [])
unfolding old_log_files
old_log_files_none parse sort stem ts end es h own =
    rw (prefix_and_ext-dated stem ts end h, old_log_files)
      (rw (recognise_none parse stem ts (dot ∷ end) es own) refl)
