-- ===== src/Common/Texts.antt =====
-- std::string as the list of its bytes, compared byte by byte.
use Prim.Native.Char.{code}
use Prim.Native.String.{String}
use power_monitor_sensor.Common.Tests.{◌==◌}
use Prim.Native.Nat.{ℕ}
use mathlib.Core.Path.{◌≡◌, refl}
use mathlib.Core.Logic.{◌↔◌}
use mathlib.Core.Bool.{Bool, true, false, ◌&&◌}
use mathlib.Core.List.{List, [], ◌∷◌}
use native.Mathlib.Omega.{arith}

abbrev pub Text : Type 0
Text = List ℕ

-- The bytes of a literal.
abbrev pub codes : String → Text
codes String.[] = []
codes (String.◌∷◌ c s) = code c ∷ codes s

unfoldable pub text_eq : Text → Text → Bool
text_eq [] [] = true
text_eq [] (y ∷ ys) = false
text_eq (x ∷ xs) [] = false
text_eq (x ∷ xs) (y ∷ ys) = x == y && text_eq xs ys

pub text_eq→eq : (s t : Text) → text_eq s t ≡ true → s ≡ t
unfolding text_eq
text_eq→eq [] [] h = refl
text_eq→eq [] (y ∷ ys) h = cc
text_eq→eq (x ∷ xs) [] h = cc
text_eq→eq (x ∷ xs) (y ∷ ys) h = ground (arith, text_eq→eq xs ys)

pub text_eq_refl : (s : Text) → text_eq s s ≡ true
unfolding text_eq
text_eq_refl [] = refl
text_eq_refl (x ∷ xs) = ground (arith, text_eq_refl xs)

pub text_eq_iff : (s t : Text) → (text_eq s t ≡ true) ↔ (s ≡ t)
text_eq_iff s t = (text_eq→eq s t, λ e. rw e (text_eq_refl t))

unfoldable pub texts_eq : List Text → List Text → Bool
texts_eq [] [] = true
texts_eq [] (t ∷ ts) = false
texts_eq (s ∷ ss) [] = false
texts_eq (s ∷ ss) (t ∷ ts) = text_eq s t && texts_eq ss ts

pub texts_eq→eq : (ss ts : List Text) → texts_eq ss ts ≡ true → ss ≡ ts
unfolding texts_eq
texts_eq→eq [] [] h = refl
texts_eq→eq [] (t ∷ ts) h = cc
texts_eq→eq (s ∷ ss) [] h = cc
texts_eq→eq (s ∷ ss) (t ∷ ts) h = ground (arith, text_eq→eq s t, texts_eq→eq ss ts)

pub texts_eq_refl : (ts : List Text) → texts_eq ts ts ≡ true
unfolding texts_eq
texts_eq_refl [] = refl
texts_eq_refl (t ∷ ts) = ground (arith, text_eq_refl t, texts_eq_refl ts)
