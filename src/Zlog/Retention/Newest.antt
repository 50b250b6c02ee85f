-- ===== src/Zlog/Retention/Newest.antt =====
-- That millRunOnce keeps the newest of the old files, given that sort.Sort sorts, and how far back MaxAge goes.
use mathlib.Core.List.{Perm}
use mathlib.Core.List.Perm
use golang_tools.Base.{
  ℕ, ◌≤◌, ◌≡◌, sym, subst, arith, true, inl, inr, List, [], ◌∷◌, ◌++◌, All, Bool-cases, Option,
  some, Option-cases, append-nil,
}
use golang_tools.Base.Int.{ℤ, pos, ltb_ℤ, ◌≤ℤ◌}
use golang_tools.Zlog.Names.{Text, prefix_and_ext}
use golang_tools.Zlog.Retention.{
  LogInfo, Entry, Settings, is_before, cutoff_time, by_age, choose, recognise, old_log_files,
}
use golang_tools.Zlog.Retention.Selection.{counted, counted_split, by_age_young, choose-partition}

abbrev pub IsNoNewer : LogInfo → LogInfo → Type 0
IsNoNewer k f = f.timestamp ≤ k.timestamp

-- No file is newer than one before it: what Less of byFormatTime asks of a sorted slice.
abbrev pub IsNewestFirst : List LogInfo → Type 0
IsNewestFirst [] = Unit {0}
IsNewestFirst (f ∷ fs) = All (IsNoNewer f) fs × IsNewestFirst fs

-- What sort.Sort promises of byFormatTime.
pub record IsSort (sort : List LogInfo → List LogInfo) : Type 0 where
  pub permutes : (fs : List LogInfo) → Perm (sort fs) fs
  pub sorts : (fs : List LogInfo) → IsNewestFirst (sort fs)

-- No file of the second list is newer than one of the first.
abbrev pub AreNoNewer : List LogInfo → List LogInfo → Type 0
AreNoNewer [] gone = Unit {0}
AreNoNewer (k ∷ kept) gone = All (IsNoNewer k) gone × AreNoNewer kept gone

All-front : (P : LogInfo → Type 0) (xs ys : List LogInfo) → All P (xs ++ ys) → All P xs × All P ys
All-front P [] ys h = (tt, h)
All-front P (x ∷ xs) ys (p, h) = let (front, back) = All-front P xs ys h in ((p, front), back)

All-append : (P : LogInfo → Type 0) (xs ys : List LogInfo) → All P xs → All P ys → All P (xs ++ ys)
All-append P [] ys hx hy = hy
All-append P (x ∷ xs) ys (p, hx) hy = (p, All-append P xs ys hx hy)

IsNewestFirst-AreNoNewer : (xs ys : List LogInfo) → IsNewestFirst (xs ++ ys) → AreNoNewer xs ys
IsNewestFirst-AreNoNewer [] ys h = tt
IsNewestFirst-AreNoNewer (x ∷ xs) ys (p, h) =
    ((All-front (IsNoNewer x) xs ys p).1, IsNewestFirst-AreNoNewer xs ys h)

AreNoNewer-append :
    (ks xs ys : List LogInfo) → AreNoNewer ks xs → AreNoNewer ks ys → AreNoNewer ks (xs ++ ys)
AreNoNewer-append [] xs ys hx hy = tt
AreNoNewer-append (k ∷ ks) xs ys (p, hx) (q, hy) =
    (All-append (IsNoNewer k) xs ys p q, AreNoNewer-append ks xs ys hx hy)

-- What a list of kept files has to do with those that go, the loop over the age leaves.
by_age-AreNoNewer :
    (cutoff : ℤ) (fs gone : List LogInfo)
    → AreNoNewer fs gone
    → AreNoNewer (by_age cutoff fs).remaining gone
unfolding by_age
by_age-AreNoNewer cutoff [] gone h = tt
by_age-AreNoNewer cutoff (f ∷ fs) gone (p, h) =
    let rest = by_age-AreNoNewer cutoff fs gone h in
    elim (Bool-cases (is_before f cutoff)) [
      | inl old ↦ rw old rest
      | inr young ↦ rw young (p, rest)
    ]

before_lt :
    (k f : LogInfo) (cutoff : ℤ)
    → cutoff ≤ℤ pos k.timestamp
    → is_before f cutoff ≡ true
    → f.timestamp ≤ k.timestamp
before_lt k f cutoff h b = ground arith

-- The files that are too old are older than one that is not.
by_age_older :
    (cutoff : ℤ) (k : LogInfo) (fs : List LogInfo)
    → cutoff ≤ℤ pos k.timestamp
    → All (IsNoNewer k) (by_age cutoff fs).remove
unfolding by_age
by_age_older cutoff k [] h = tt
by_age_older cutoff k (f ∷ fs) h =
    let rest = by_age_older cutoff k fs h in
    elim (Bool-cases (is_before f cutoff)) [
      | inl old ↦ rw old (before_lt k f cutoff h old, rest)
      | inr young ↦ rw young rest
    ]

young_older :
    (cutoff : ℤ) (kept fs : List LogInfo)
    → All (λ k. cutoff ≤ℤ pos k.timestamp) kept
    → AreNoNewer kept (by_age cutoff fs).remove
young_older cutoff [] fs h = tt
young_older cutoff (k ∷ kept) fs (p, h) = (by_age_older cutoff k fs p, young_older cutoff kept fs h)

-- For all settings: if the old files come newest first, no file that millRunOnce removes is newer than one
-- that it keeps.
choose-AreNoNewer :
    (c : Settings) (files : List LogInfo)
    → IsNewestFirst files
    → AreNoNewer (choose c files).kept (choose c files).remove
unfolding choose
choose-AreNoNewer c files newest =
    let cutoff = cutoff_time c.max_age c.now in
    let rest = (counted c files).remaining in
    let split : AreNoNewer rest (counted c files).remove =
      IsNewestFirst-AreNoNewer rest (counted c files).remove
        (subst IsNewestFirst (sym (counted_split c files)) newest) in
    elim (Bool-cases (ltb_ℤ (pos 0) c.max_age)) [
      | inl aged ↦ rw aged (
          AreNoNewer-append (by_age cutoff rest).remaining (counted c files).remove
            (by_age cutoff rest).remove
            (by_age-AreNoNewer cutoff rest (counted c files).remove split)
            (young_older cutoff (by_age cutoff rest).remaining rest (by_age_young cutoff rest)))
      | inr ageless ↦ rw (ageless, append-nil (counted c files).remove) split
    ]

sorted_files :
    (parse : Text → Option ℕ) (sort : List LogInfo → List LogInfo) (current : Text)
    (entries : List Entry) (files : List LogInfo)
    → old_log_files parse sort current (some entries) ≡ some files
    → (fs : List LogInfo) × (recognise parse
          (prefix_and_ext current).0
          (prefix_and_ext current).1
          entries
        ≡ some fs)
      × (files ≡ sort fs)
unfolding old_log_files
sorted_files parse sort current entries files h =
    elim (Option-cases
      (recognise parse (prefix_and_ext current).0 (prefix_and_ext current).1 entries)) [
        | inl e ↦ absurd (cc (h, e))
        | inr (fs, e) ↦ (fs, e, cc (h, e))
      ]

-- For all settings and directories, given that sort.Sort sorts: if oldLogFiles returns files, those that
-- millRunOnce keeps and those that it removes are together the backups that it recognised in the directory,
-- each as often as it is among them, and no removed one is newer than one that is kept.
pub choose-old_log_files :
    (parse : Text → Option ℕ) (sort : List LogInfo → List LogInfo) (current : Text)
    (entries : List Entry) (c : Settings) (files : List LogInfo)
    → IsSort sort
    → old_log_files parse sort current (some entries) ≡ some files
    → AreNoNewer (choose c files).kept (choose c files).remove
      × ((fs : List LogInfo) × (recognise parse
              (prefix_and_ext current).0
              (prefix_and_ext current).1
              entries
            ≡ some fs)
          × Perm ((choose c files).kept ++ (choose c files).remove) fs)
choose-old_log_files parse sort current entries c files s h =
    let (fs, known, e) = sorted_files parse sort current entries files h in
    (
      choose-AreNoNewer c files (subst IsNewestFirst (sym e) (s.sorts fs)),
      (
        fs,
        known,
        Perm.trans (choose-partition c files) (subst (λ xs. Perm xs fs) (sym e) (s.permutes fs)),
      ),
    )
