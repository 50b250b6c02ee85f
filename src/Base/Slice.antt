-- ===== src/Base/Slice.antt =====
-- A Go slice and the array behind it, and the deletion `append(s[:i], s[i+1:]...)`, which shifts
-- the elements in that array. A `range` loop over the slice keeps the array and the old length.
use Prim.Native.Nat.{ℕ, suc, ◌+◌, ◌-◌, ◌<◌}
use mathlib.Core.Path.{◌≡◌, sym, ap, ◌∙◌}
use mathlib.Core.Option.{Option, none, some}
use mathlib.Core.List.{List, ◌∷◌, ◌++◌, append_assoc}
use native.Mathlib.Omega.{arith}
use golang_tools.Base.Tests.{leb, le→leb, lt→leb, if◌then◌else◌}
use golang_tools.Base.Lists.{
  length, take, drop, last_of, take_front, drop-last_of, drop-append_add, length-append,
}

-- `array` holds the elements up to the length that the slice had when the loop began.
pub record Slice {ℓ} (A : Type ℓ) : Type ℓ where
  pub array : List A
  pub len : ℕ

module _ {ℓ} {A : Type ℓ} where
  abbrev pub of_list : List A → Slice A
  of_list xs = record { array = xs; len = length xs }

  -- The elements that the slice shows.
  abbrev pub shown : Slice A → List A
  shown s = take s.len s.array

  -- `copy(a[i:], xs)`, where the room suffices.
  abbrev pub overwrite : List A → ℕ → List A → List A
  overwrite a i xs = take i a ++ (xs ++ drop (i + length xs) a)

  -- `append(s[:i], s[i+1:]...)`: it panics unless `i + 1 <= len(s)`.
  unfoldable pub delete_at : ℕ → Slice A → Option (Slice A)
  delete_at i s =
      if leb (i + 1) s.len
      then some (record {
        array = overwrite s.array i (drop (i + 1) (take s.len s.array));
        len = s.len - 1;
      })
      else none

  -- A deletion inside the slice shifts what follows, and leaves the last element behind the end.
  pub delete_at-middle :
      (i m : ℕ) (a ps : List A) (x : A) (rs stale : List A)
      → a ≡ ps ++ ((x ∷ rs) ++ stale)
      → i ≡ length ps
      → m ≡ length ps + suc (length rs)
      → delete_at i (record { array = a; len = m })
        ≡ some (record { array = ps ++ (rs ++ (last_of x rs ∷ stale)); len = m - 1 })
  unfolding delete_at
  delete_at-middle i m a ps x rs stale e hi hm =
      rw (e, le→leb (i + 1) m (omega arith), front, after_x, before, behind)
    where
      front : take m (ps ++ ((x ∷ rs) ++ stale)) ≡ ps ++ (x ∷ rs)
      front =
          ap (take m) (sym (append_assoc ps (x ∷ rs) stale))
          ∙ take_front m (ps ++ (x ∷ rs)) stale (omega (arith, length-append ps (x ∷ rs)))

      after_x : drop (i + 1) (ps ++ (x ∷ rs)) ≡ rs
      after_x = drop-append_add (i + 1) 1 ps (x ∷ rs) (omega arith)

      before : take i (ps ++ ((x ∷ rs) ++ stale)) ≡ ps
      before = take_front i ps _ hi

      behind : drop (i + length rs) (ps ++ ((x ∷ rs) ++ stale)) ≡ last_of x rs ∷ stale
      behind =
          drop-append_add (i + length rs) (length rs) ps _ (omega arith) ∙ drop-last_of rs x stale

  -- A deletion at the end of the slice or behind it panics.
  pub delete_at_beyond : (i : ℕ) (s : Slice A) → s.len < suc i → delete_at i s ≡ none
  unfolding delete_at
  delete_at_beyond i s h = rw (lt→leb (i + 1) s.len (omega arith))
