-- ===== src/Zlog/Retention/Selection.antt =====
-- What millRunOnce chooses to keep among the old files.
use mathlib.Core.List.{Perm, append-nil, append_assoc, perm_middle, perm_append_comm}
use mathlib.Core.List.Perm
use golang_tools.Base.{
  ℕ, ◌≤◌, ◌<◌, ◌≡◌, refl, subst, ap, arith, ltb, if◌then◌else◌, List, [], ◌∷◌, ◌++◌, length, ◌&&◌,
  All, Bool-cases, inl, inr, lt→ltb, ltb→lt, ltb→le, true, false,
}
use golang_tools.Base.Int.{ℤ, pos, pos_part, ltb_ℤ, ◌≤ℤ◌}
use golang_tools.Zlog.Names.{Text}
use golang_tools.Zlog.Retention.{
  LogInfo, Split, Settings, contains, mark, plain_name, by_count, by_age, choose, is_before,
  cutoff_time,
}

-- The names that a list of files has besides those already met.
abbrev pub marks : List LogInfo → List Text → List Text
marks [] us = us
marks (f ∷ fs) us = marks fs (mark (plain_name f.name) us)

length-mark : (t : Text) (us : List Text) → length us ≤ length (mark t us)
length-mark t us = elim (Bool-cases (contains t us)) [
  | inl old ↦ rw old (omega arith)
  | inr new ↦ rw new (omega arith)
]

-- Once there are too many names every file goes.
by_count_full :
    (max : ℕ) (us : List Text) (fs : List LogInfo)
    → max < length us
    → by_count max us fs ≡ record { remaining = []; remove = fs }
unfolding by_count
by_count_full max us [] h = refl
by_count_full max us (f ∷ fs) h =
    let grown : length us ≤ length (mark (plain_name f.name) us) =
      length-mark (plain_name f.name) us in
    let over : max < length (mark (plain_name f.name) us) = omega (arith, grown, h) in
    rw
      (
        lt→ltb max (length (mark (plain_name f.name) us)) over,
        by_count_full max (mark (plain_name f.name) us) fs over,
      )
      refl

-- If there are not too many names yet, the files that stay are the first ones, those that go are the
-- others, and the names of those that stay, together with the names met before, are at most as many as
-- allowed. The names are counted without the suffix of a compressed file.
pub by_count_front :
    (max : ℕ) (us : List Text) (fs : List LogInfo)
    → length us ≤ max
    → ((by_count max us fs).remaining ++ (by_count max us fs).remove ≡ fs)
      × (length (marks (by_count max us fs).remaining us) ≤ max)
unfolding by_count
by_count_front max us [] h = (refl, h)
by_count_front max us (f ∷ fs) h =
    let names = mark (plain_name f.name) us in
    elim (Bool-cases (ltb max (length names))) [
      | inl over ↦ rw (over, by_count_full max names fs (ltb→lt max (length names) over)) (refl, h)
      | inr fits ↦
          (let (front, few) = by_count_front max names fs (ltb→le max (length names) fits) in
            rw fits (ap (◌∷◌ f) front, few))
    ]

-- No file is lost.
by_age_split :
    (cutoff : ℤ) (fs : List LogInfo)
    → Perm ((by_age cutoff fs).remaining ++ (by_age cutoff fs).remove) fs
unfolding by_age
by_age_split cutoff [] = Perm.rfl
by_age_split cutoff (f ∷ fs) =
    let rest = by_age_split cutoff fs in
    elim (Bool-cases (is_before f cutoff)) [
      | inl before ↦ rw before (
          Perm.trans (perm_middle (by_age cutoff fs).remaining (by_age cutoff fs).remove)
            (Perm.cons f rest))
      | inr since ↦ rw since (Perm.cons f rest)
    ]

since_le : (f : LogInfo) (cutoff : ℤ) → is_before f cutoff ≡ false → cutoff ≤ℤ pos f.timestamp
since_le f cutoff h = ground arith

pub by_age_young :
    (cutoff : ℤ) (fs : List LogInfo)
    → All (λ f. cutoff ≤ℤ pos f.timestamp) (by_age cutoff fs).remaining
unfolding by_age
by_age_young cutoff [] = tt
by_age_young cutoff (f ∷ fs) =
    let rest = by_age_young cutoff fs in
    elim (Bool-cases (is_before f cutoff)) [
      | inl before ↦ rw before rest
      | inr since ↦ rw since (since_le f cutoff since, rest)
    ]

-- The first loop of millRunOnce, or its absence.
abbrev pub counted : Settings → List LogInfo → Split
counted c files =
    if ltb_ℤ (pos 0) c.max_backups && ltb_ℤ c.max_backups (pos (length files))
    then by_count (pos_part c.max_backups) [] files
    else record { remaining = files; remove = [] }

pub counted_split :
    (c : Settings) (files : List LogInfo)
    → (counted c files).remaining ++ (counted c files).remove ≡ files
counted_split c files =
    elim (Bool-cases (ltb_ℤ (pos 0) c.max_backups && ltb_ℤ c.max_backups (pos (length files)))) [
      | inl many ↦ rw many ((by_count_front (pos_part c.max_backups) [] files (omega arith)).0)
      | inr few ↦ rw few (append-nil files)
    ]

-- For all settings, the files that millRunOnce keeps and those that it removes are together the old
-- files, each as often as it is among them.
pub choose-partition :
    (c : Settings) (files : List LogInfo)
    → Perm ((choose c files).kept ++ (choose c files).remove) files
unfolding choose
choose-partition c files =
    let young = by_age (cutoff_time c.max_age c.now) (counted c files).remaining in
    let kept = by_age_split (cutoff_time c.max_age c.now) (counted c files).remaining in
    let together = Perm.append_right (counted c files).remove kept in
    let whole : Perm (young.remaining ++ (young.remove ++ (counted c files).remove)) files =
      subst (λ xs. Perm xs files)
        (append_assoc young.remaining young.remove (counted c files).remove)
        (subst (Perm ((young.remaining ++ young.remove) ++ (counted c files).remove))
          (counted_split c files) together) in
    elim (Bool-cases (ltb_ℤ (pos 0) c.max_age)) [
      | inl aged ↦ rw aged (
          Perm.trans
            (Perm.append_left young.remaining
              (perm_append_comm (counted c files).remove young.remove))
            whole)
      | inr ageless ↦
          rw (ageless, append-nil (counted c files).remove, counted_split c files) Perm.rfl
    ]

-- With a maximal age no file that millRunOnce keeps is older than it.
pub choose_young :
    (c : Settings) (files : List LogInfo)
    → ltb_ℤ (pos 0) c.max_age ≡ true
    → All (λ f. cutoff_time c.max_age c.now ≤ℤ pos f.timestamp) (choose c files).kept
unfolding choose
choose_young c files h =
    rw h (by_age_young (cutoff_time c.max_age c.now) (counted c files).remaining)
