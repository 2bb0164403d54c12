-- ===== src/Prelude/Split.antt =====
-- Splitting a text at a character, and what is put together with one.
use Prim.Native.Char.{Char, code}
use Prim.Native.String.{String, ◌++◌ as append_text}
use Prim.Native.Nat.{ℕ, zero, suc}
use mathlib.Core.Path.{◌≡◌, refl, sym, ap, ◌∙◌}
use mathlib.Core.Logic.{inl, inr}
use mathlib.Core.Bool.{Bool, false, ◌||◌}
use mathlib.Core.Option.{Option, none, some}
use native.Mathlib.Omega.{arith}
use text.Mathlib.TextLemmas.{nil-append, cons-append}
use text.Mathlib.TextEquality.{Char-path}
use proofstep.Prelude.Tests.{Bool-cases, Option-cases, ==_iff, ◌==◌, if◌then◌else◌}

abbrev pub has_char : Char → String → Bool
has_char c String.[] = false
has_char c (String.◌∷◌ d s) = code d == code c || has_char c s

abbrev put_front : Char → Option (String × String) → Option (String × String)
put_front d none = none
put_front d (some (a, b)) = some (String.◌∷◌ d a, b)

-- `s.split(c, 1)` where it has two parts
unfoldable pub split_once : Char → String → Option (String × String)
split_once c String.[] = none
split_once c (String.◌∷◌ d s) =
    let rest = put_front d (split_once c s) in if code d == code c then some ("", s) else rest

-- `a + c + b`
abbrev pub join_by : Char → String → String → String
join_by c a b = append_text a (String.◌∷◌ c b)

pub split_once-join_by :
    (c : Char) (a b : String) → has_char c a ≡ false → split_once c (join_by c a b) ≡ some (a, b)
unfolding split_once
split_once-join_by c String.[] b h = rw (nil-append (String.◌∷◌ c b)) (ground arith)
split_once-join_by c (String.◌∷◌ d a) b h =
    rw (cons-append d a (String.◌∷◌ c b)) (ground (arith, split_once-join_by c a b))

pub split_once_inv :
    (c : Char) (s a b : String)
    → split_once c s ≡ some (a, b)
    → (s ≡ join_by c a b) × (has_char c a ≡ false)
unfolding split_once
split_once_inv c String.[] a b h = cc
split_once_inv c (String.◌∷◌ d s) a b h = elim (Bool-cases (code d == code c)) [
  | inl e ↦
      let same : d ≡ c = Char-path d c ((==_iff (code d) (code c)).0 e) in
      let empty : "" ≡ a = ground (arith, h, e) in
      let rest : s ≡ b = ground (arith, h, e) in
      rw (← empty, ← rest) (ap (λ x. String.◌∷◌ x s) same ∙ sym (nil-append (String.◌∷◌ c s)), refl)
  | inr e ↦ elim (Option-cases (split_once c s)) [
    | inl f ↦ absurd (ground (arith, h, e, f))
    | inr ((front, rest), f) ↦
        let (joined, free) = split_once_inv c s front rest f in
        let one : String.◌∷◌ d front ≡ a = ground (arith, h, e, f) in
        let two : rest ≡ b = ground (arith, h, e, f) in
        rw (← one, ← two)
          (
            ap (String.◌∷◌ d) joined ∙ sym (cons-append d front (String.◌∷◌ c rest)),
            ground (arith, e, free),
          )
  ]
]

pub has_char-append :
    (c : Char) (a b : String) → has_char c (append_text a b) ≡ (has_char c a || has_char c b)
has_char-append c String.[] b = ap (has_char c) (nil-append b)
has_char-append c (String.◌∷◌ d a) b =
    rw (cons-append d a b) (ground (arith, has_char-append c a b))

-- `s[:n]`
unfoldable pub take_text : ℕ → String → String
take_text zero s = ""
take_text (suc n) String.[] = ""
take_text (suc n) (String.◌∷◌ c s) = String.◌∷◌ c (take_text n s)
