-- ===== src/Base/Texts.antt =====
-- Texts: a Go string is the list of its bytes.
use Prim.Native.Nat.{ℕ}
use mathlib.Core.Path.{◌≡◌, refl}
use mathlib.Core.Bool.{Bool, true, false, ◌&&◌}
use mathlib.Core.List.{List, [], ◌∷◌}
use native.Mathlib.Omega.{arith}
use golang_tools.Base.Tests.{◌==◌, eq→==}

abbrev pub Text : Type 0
Text = List ℕ

abbrev pub text_eq : Text → Text → Bool
text_eq [] [] = true
text_eq [] (d ∷ ds) = false
text_eq (c ∷ cs) [] = false
text_eq (c ∷ cs) (d ∷ ds) = c == d && text_eq cs ds

pub text_eq_refl : (cs : Text) → text_eq cs cs ≡ true
text_eq_refl [] = refl
text_eq_refl (c ∷ cs) = rw (eq→== c c refl, text_eq_refl cs)

pub text_eq→eq : (cs ds : Text) → text_eq cs ds ≡ true → cs ≡ ds
text_eq→eq [] [] h = refl
text_eq→eq [] (d ∷ ds) h = absurd (cc)
text_eq→eq (c ∷ cs) [] h = absurd (cc)
text_eq→eq (c ∷ cs) (d ∷ ds) h = ground (arith, text_eq→eq cs ds)

pub text_eq_sym : (cs ds : Text) → text_eq cs ds ≡ text_eq ds cs
text_eq_sym [] [] = refl
text_eq_sym [] (d ∷ ds) = refl
text_eq_sym (c ∷ cs) [] = refl
text_eq_sym (c ∷ cs) (d ∷ ds) = ground (arith, text_eq_sym cs ds)
