-- ===== src/Prelude/Text.antt =====
-- Python's `str`: equality, prefixes, splitting, and the order of code points.
use Prim.Native.Nat.{ℕ}
use Prim.Native.Char.{code}
use Prim.Native.String.{String}
use mathlib.Core.Path.{◌≡◌, refl}
use mathlib.Core.Logic.{◌↔◌}
use mathlib.Core.Bool.{Bool, true, false, ◌&&◌}
use mathlib.Core.List.{List, [], ◌∷◌}
use mathlib.Core.Option.{Option, none, some}
use native.Mathlib.Omega.{arith}
use proofstep.Prelude.Tests.{◌==◌, ltb, if◌then◌else◌}
use proofstep.Prelude.Lists.{any}
pub use text.Mathlib.Text.{◌==◌ as str_eq}
pub use text.Mathlib.TextEquality.{eq_iff as str_eq_iff}
pub use text.Mathlib.TextPositions.{eq_refl as str_eq_refl}

-- `x in xs` for a list of texts
abbrev pub mem_text : String → List String → Bool
mem_text a xs = any (λ x. str_eq x a) xs

abbrev pub codes : String → List ℕ
codes String.[] = []
codes (String.◌∷◌ c s) = code c ∷ codes s

-- `s.removeprefix(p)` where `s.startswith(p)`
unfoldable pub strip_prefix : String → String → Option String
strip_prefix String.[] s = some s
strip_prefix (String.◌∷◌ c p) String.[] = none
strip_prefix (String.◌∷◌ c p) (String.◌∷◌ d s) = elim (code c == code d) [
  | true ↦ strip_prefix p s
  | false ↦ none
]

-- `xs <= ys` for sequences of code points
unfoldable pub lex_leb : List ℕ → List ℕ → Bool
lex_leb [] ys = true
lex_leb (x ∷ xs) [] = false
lex_leb (x ∷ xs) (y ∷ ys) =
    let rest = lex_leb xs ys in if ltb x y then true else if x == y then rest else false

unfoldable pub str_leb : String → String → Bool
unfolding lex_leb
str_leb a b = lex_leb (codes a) (codes b)

pub lex_total : (xs ys : List ℕ) → lex_leb xs ys ≡ false → lex_leb ys xs ≡ true
unfolding lex_leb
lex_total [] ys h = ground arith
lex_total (x ∷ xs) [] h = refl
lex_total (x ∷ xs) (y ∷ ys) h = ground (arith, lex_total xs ys)

pub lex_trans :
    (xs ys zs : List ℕ) → lex_leb xs ys ≡ true → lex_leb ys zs ≡ true → lex_leb xs zs ≡ true
unfolding lex_leb
lex_trans [] ys zs h k = refl
lex_trans (x ∷ xs) [] zs h k = ground arith
lex_trans (x ∷ xs) (y ∷ ys) [] h k = ground arith
lex_trans (x ∷ xs) (y ∷ ys) (z ∷ zs) h k = ground (arith, lex_trans xs ys zs)

-- `xs == ys` for two sequences of numbers, such as bytes
unfoldable pub same_numbers : List ℕ → List ℕ → Bool
same_numbers [] [] = true
same_numbers [] (y ∷ ys) = false
same_numbers (x ∷ xs) [] = false
same_numbers (x ∷ xs) (y ∷ ys) = x == y && same_numbers xs ys

pub same_numbers_refl : (xs : List ℕ) → same_numbers xs xs ≡ true
unfolding same_numbers
same_numbers_refl [] = refl
same_numbers_refl (x ∷ xs) = ground (arith, same_numbers_refl xs)

pub same_numbers-eq : (xs ys : List ℕ) → same_numbers xs ys ≡ true → xs ≡ ys
unfolding same_numbers
same_numbers-eq [] [] h = refl
same_numbers-eq [] (y ∷ ys) h = ground arith
same_numbers-eq (x ∷ xs) [] h = ground arith
same_numbers-eq (x ∷ xs) (y ∷ ys) h = ground (arith, same_numbers-eq xs ys)

-- `xs == ys` for two lists of texts
unfoldable pub same_texts : List String → List String → Bool
same_texts [] [] = true
same_texts [] (y ∷ ys) = false
same_texts (x ∷ xs) [] = false
same_texts (x ∷ xs) (y ∷ ys) = str_eq x y && same_texts xs ys

pub same_texts_iff : (xs ys : List String) → (same_texts xs ys ≡ true) ↔ (xs ≡ ys)
unfolding same_texts
same_texts_iff [] [] = (λ h. refl, λ h. refl)
same_texts_iff [] (y ∷ ys) = (λ h. absurd (cc), λ h. absurd (cc))
same_texts_iff (x ∷ xs) [] = (λ h. absurd (cc), λ h. absurd (cc))
same_texts_iff (x ∷ xs) (y ∷ ys) = (
  λ h. ground (arith, str_eq_iff x y, same_texts_iff xs ys),
  λ h. ground (arith, str_eq_iff x y, same_texts_iff xs ys),
)

pub str_leb_total : (a b : String) → str_leb a b ≡ false → str_leb b a ≡ true
unfolding str_leb
str_leb_total a b h = lex_total (codes a) (codes b) h

pub str_leb_trans : (a b c : String) → str_leb a b ≡ true → str_leb b c ≡ true → str_leb a c ≡ true
unfolding str_leb
str_leb_trans a b c h k = lex_trans (codes a) (codes b) (codes c) h k
