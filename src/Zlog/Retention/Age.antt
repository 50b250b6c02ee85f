-- ===== src/Zlog/Retention/Age.antt =====
-- MaxAge in days, as far as an int64 of nanoseconds goes.
use golang_tools.Base.{
  ℕ, suc, ◌+◌, ◌-◌, ◌*◌, ◌^◌, ◌≤◌, ◌<◌, ◌≡◌, refl, sym, subst, ap, ◌∙◌, arith, true, List, [], ◌∷◌,
  ◌++◌, All, leb, not, Bool-cases, inl, inr, if◌then◌else◌,
}
use golang_tools.Base.Int.{ℤ, pos, negsuc, ltb_ℤ, ◌+ℤ◌, ◌*ℤ◌, *ℤ-pos, +ℤ-pos}
use golang_tools.Base.Word.{wrap64}
use golang_tools.Zlog.Retention.{LogInfo, Settings, is_before, day, cutoff_time, by_age, choose}
use golang_tools.Zlog.Retention.Selection.{counted, counted_split}

wrap64_small : (n : ℕ) → n < 2 ^ 63 → wrap64 (pos n) ≡ pos n
unfolding wrap64
wrap64_small n h = ground arith

wrap64_negative : (n : ℕ) → n < 2 ^ 63 → wrap64 (negsuc n) ≡ negsuc n
unfolding wrap64
wrap64_negative n h = ground arith

wrap64_over : (n : ℕ) → 2 ^ 63 ≤ n → n < 2 ^ 64 → wrap64 (pos n) ≡ negsuc (2 ^ 64 - 1 - n)
unfolding wrap64
wrap64_over n h k = ground arith

minus_pos : (n : ℕ) → negsuc 0 *ℤ pos (suc n) ≡ negsuc n
unfolding ◌*ℤ◌
minus_pos n = ground arith

minus_negative : (n : ℕ) → negsuc 0 *ℤ negsuc n ≡ pos (n + 1)
unfolding ◌*ℤ◌
minus_negative n = ground arith

-- The days as nanoseconds.
in_days : (days : ℕ) → pos day *ℤ pos days ≡ pos (day * days)
in_days days = *ℤ-pos day days

cutoff_exact :
    (k : ℕ) (days now : ℕ)
    → day * days ≡ suc k
    → k < 2 ^ 63 - 1
    → cutoff_time (pos days) now ≡ pos now +ℤ negsuc k
unfolding cutoff_time
cutoff_exact k days now e h =
    rw
      (
        in_days days,
        e,
        wrap64_small (suc k) (omega arith),
        minus_pos k,
        wrap64_negative k (omega arith),
      )
      refl

cutoff_late :
    (days now : ℕ)
    → 106_752 ≤ days
    → days ≤ 213_503
    → cutoff_time (pos days) now ≡ pos (now + (2 ^ 64 - day * days))
unfolding cutoff_time
cutoff_late days now h k =
    let rest : 2 ^ 64 - 1 - day * days + 1 ≡ 2 ^ 64 - day * days = omega arith in
    rw
      (
        in_days days,
        wrap64_over (day * days) (omega arith) (omega arith),
        minus_negative (2 ^ 64 - 1 - day * days),
        rest,
        wrap64_small (2 ^ 64 - day * days) (omega arith),
        +ℤ-pos now (2 ^ 64 - day * days),
      )
      refl

All-map :
    (P Q : LogInfo → Type 0) (fs : List LogInfo) → ((f : LogInfo) → P f → Q f) → All P fs → All Q fs
All-map P Q [] f h = tt
All-map P Q (x ∷ xs) f (p, h) = (f x p, All-map P Q xs f h)

positive : (days : ℕ) → 1 ≤ days → ltb_ℤ (pos 0) (pos days) ≡ true
positive days h = ground arith

-- The files that are not older than so many nanoseconds, in their order.
unfoldable pub not_older : ℕ → ℕ → List LogInfo → List LogInfo
not_older age now [] = []
not_older age now (f ∷ fs) =
    if leb now (f.timestamp + age) then f ∷ not_older age now fs else not_older age now fs

before_cutoff :
    (f : LogInfo) (k now : ℕ) (cutoff : ℤ)
    → cutoff ≡ pos now +ℤ negsuc k
    → is_before f cutoff ≡ not (leb now (f.timestamp + suc k))
unfolding ◌+ℤ◌
before_cutoff f k now cutoff e = ground arith

by_age-not_older :
    (k now : ℕ) (cutoff : ℤ) (fs : List LogInfo)
    → cutoff ≡ pos now +ℤ negsuc k
    → (by_age cutoff fs).remaining ≡ not_older (suc k) now fs
unfolding by_age not_older
by_age-not_older k now cutoff [] e = refl
by_age-not_older k now cutoff (f ∷ fs) e = elim (Bool-cases (leb now (f.timestamp + suc k))) [
  | inl young ↦
      rw (before_cutoff f k now cutoff e, young) (ap (◌∷◌ f) (by_age-not_older k now cutoff fs e))
  | inr old ↦ rw (before_cutoff f k now cutoff e, old) (by_age-not_older k now cutoff fs e)
]

-- What stays without MaxAge, and what the loop over the age leaves of it.
kept_unaged :
    (c : Settings) (files : List LogInfo)
    → (choose (record c { max_age = pos 0 }) files).kept ≡ (counted c files).remaining
unfolding choose
kept_unaged c files = refl

kept_aged :
    (c : Settings) (files : List LogInfo)
    → ltb_ℤ (pos 0) c.max_age ≡ true
    → (choose c files).kept
      ≡ (by_age (cutoff_time c.max_age c.now) (counted c files).remaining).remaining
unfolding choose
kept_aged c files aged = rw aged refl

-- With MaxAge from 1 to 106751 days millRunOnce keeps exactly those files, in their order, that it would keep
-- without MaxAge and that are not older than that many days of 24 hours.
pub choose_young_days :
    (c : Settings) (days : ℕ) (files : List LogInfo)
    → c.max_age ≡ pos days
    → 1 ≤ days
    → days ≤ 106_751
    → (choose c files).kept
      ≡ not_older
          (days * (24 * 3600 * 1_000_000_000))
          c.now
          (choose (record c { max_age = pos 0 }) files).kept
choose_young_days c days files e some_day few =
    let whole : suc (day * days - 1) ≡ day * days = omega arith in
    let exact : cutoff_time c.max_age c.now ≡ pos c.now +ℤ negsuc (day * days - 1) =
      ap (λ a. cutoff_time a c.now) e
      ∙ cutoff_exact (day * days - 1) days c.now (sym whole) (omega arith) in
    let aged : ltb_ℤ (pos 0) c.max_age ≡ true =
      ap (ltb_ℤ (pos 0)) e ∙ positive days (omega arith) in
    let age : suc (day * days - 1) ≡ days * (24 * 3600 * 1_000_000_000) = omega arith in
    kept_aged c files aged
    ∙ by_age-not_older (day * days - 1) c.now _ (counted c files).remaining exact
    ∙ ap (λ n. not_older n c.now (counted c files).remaining) age
    ∙ ap (not_older (days * (24 * 3600 * 1_000_000_000)) c.now) (sym (kept_unaged c files))

by_age-All :
    (cutoff : ℤ) (fs : List LogInfo)
    → All (λ f. is_before f cutoff ≡ true) fs
    → (by_age cutoff fs).remaining ≡ []
unfolding by_age
by_age-All cutoff [] h = refl
by_age-All cutoff (f ∷ fs) (old, h) = rw old (by_age-All cutoff fs h)

All-front : (P : LogInfo → Type 0) (xs ys : List LogInfo) → All P (xs ++ ys) → All P xs
All-front P [] ys h = tt
All-front P (x ∷ xs) ys (p, h) = (p, All-front P xs ys h)

before_late :
    (f : LogInfo) (now over : ℕ) (cutoff : ℤ)
    → cutoff ≡ pos (now + suc over)
    → f.timestamp ≤ now
    → is_before f cutoff ≡ true
before_late f now over cutoff e h = ground arith

choose_none :
    (c : Settings) (files : List LogInfo)
    → ltb_ℤ (pos 0) c.max_age ≡ true
    → All (λ f. is_before f (cutoff_time c.max_age c.now) ≡ true) files
    → (choose c files).kept ≡ []
unfolding choose
choose_none c files aged h = rw aged (
    by_age-All (cutoff_time c.max_age c.now) (counted c files).remaining (
      All-front _ (counted c files).remaining (counted c files).remove (
        subst (All (λ f. is_before f (cutoff_time c.max_age c.now) ≡ true))
          (sym (counted_split c files)) h)))

-- With MaxAge from 106752 to 213503 days the int64 of nanoseconds overflows, and millRunOnce keeps none of the
-- old files, if their times are not later than the current time.
pub choose_overflow :
    (c : Settings) (days : ℕ) (files : List LogInfo)
    → c.max_age ≡ pos days
    → 106_752 ≤ days
    → days ≤ 213_503
    → All (λ f. f.timestamp ≤ c.now) files
    → (choose c files).kept ≡ []
choose_overflow c days files e many few past =
    let rest : 2 ^ 64 - day * days ≡ suc (2 ^ 64 - day * days - 1) = omega arith in
    let late : cutoff_time c.max_age c.now ≡ pos (c.now + suc (2 ^ 64 - day * days - 1)) =
      ap (λ a. cutoff_time a c.now) e
      ∙ cutoff_late days c.now many few
      ∙ ap (λ n. pos (c.now + n)) rest in
    choose_none c files (ap (ltb_ℤ (pos 0)) e ∙ positive days (omega arith)) (
      All-map (λ f. f.timestamp ≤ c.now) _ files
        (λ f h. before_late f c.now (2 ^ 64 - day * days - 1) _ late h) past)
