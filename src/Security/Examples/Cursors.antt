-- ===== src/Security/Examples/Cursors.antt =====
-- A base64 of its own kind, which counts in groups of four letters.
use Prim.Native.Char.{Char, code}
use Prim.Native.Nat.{◌%◌}
use Prim.Native.String.{◌++◌ as append_text}
use text.Mathlib.TextLemmas.{append-nil}
use proofstep.Prelude.{
  ℕ, zero, suc, ◌+◌, String, ◌≡◌, refl, sym, ap, ◌∙◌, ◌↔◌, false, Option, none, some, List, [], ◌∷◌,
  ◌++◌, arith, ◌==◌, if◌then◌else◌, length,
}
use proofstep.Prelude.{codes}
use proofstep.Prelude.Split.{has_char}
use proofstep.Types.Value.{ℤ, Value, Fields}
use proofstep.Security.Cursors.{Loaded, Library, Decoded, dot, equals, padding, encode, decode}
use proofstep.Security.Cursors.Signed.{Conforms, Parts, decode-encode, decode_iff}

abbrev four : Char → String → String
four c s = String.◌∷◌ c (String.◌∷◌ c (String.◌∷◌ c (String.◌∷◌ c s)))

-- `n` groups before the rest
counted : ℕ → String → String
counted zero s = four "b" s
counted (suc n) s = four "a" (counted n s)

spelled : List ℕ → String
spelled [] = ""
spelled (n ∷ ns) = counted n (spelled ns)

abbrev put_number : ℕ → Option (List ℕ) → Option (List ℕ)
put_number n none = none
put_number n (some ns) = some (n ∷ ns)

read : ℕ → String → Option (List ℕ)
read n String.[] = some []
read n (String.◌∷◌ c (String.◌∷◌ _ (String.◌∷◌ _ (String.◌∷◌ _ s)))) =
    if code c == b'a' then read (suc n) s else put_number n (read 0 s)
read n other = none

read-counted : (n m : ℕ) (s : String) → read n (counted m s) ≡ put_number (n + m) (read 0 s)
unfolding read counted
read-counted n zero s = ap (λ k. put_number k (read 0 s)) (omega arith)
read-counted n (suc m) s =
    read-counted (suc n) m s ∙ ap (λ k. put_number k (read 0 s)) (omega arith)

read-spelled : (ns : List ℕ) → read 0 (spelled ns) ≡ some ns
unfolding spelled read
read-spelled [] = refl
read-spelled (n ∷ ns) = read-counted 0 n (spelled ns) ∙ (rw (read-spelled ns) (ground arith))

abbrev IsWhole : String → Type 0
IsWhole s = (length (codes s) % 4 ≡ 0) × (has_char equals s ≡ false) × (has_char dot s ≡ false)

counted-IsWhole : (n : ℕ) (s : String) → IsWhole s → IsWhole (counted n s)
unfolding counted
counted-IsWhole zero s h = ground arith
counted-IsWhole (suc n) s h = ground (arith, counted-IsWhole n s)

spelled-IsWhole : (ns : List ℕ) → IsWhole (spelled ns)
unfolding spelled
spelled-IsWhole [] = (refl, refl, refl)
spelled-IsWhole (n ∷ ns) = counted-IsWhole n (spelled ns) (spelled-IsWhole ns)

-- One payload, its print, and a signature that ends in the secret's letters.
abbrev page : Fields
page = Fields.field "after" (Value.int (ℤ.pos 7)) Fields.done

abbrev library : Library
library = record {
  dumps = λ d. 123 ∷ [];
  loads = λ raw. Loaded.loaded (Value.obj page);
  b64encode = spelled;
  b64decode = read 0;
  hmac = λ secret raw. codes secret ++ raw;
}

no_padding : (s : String) → s ≡ append_text s (padding 0)
unfolding padding
no_padding s = sym (append-nil s)

library-Conforms : Conforms library (λ d. page)
library-Conforms = record {
  b64decode-b64encode = read-spelled;
  groups = λ raw.
      let (whole, free, dotless) = spelled-IsWhole raw in
      (spelled raw, 0, no_padding (spelled raw), omega arith, omega (arith, whole), free, dotless);
  loads-dumps = λ d. refl;
}

decode-encode_example : decode library (encode library page "k") "k" ≡ Decoded.decoded page
decode-encode_example = decode-encode library-Conforms page "k"

decode_iff_example : (decode library (encode library page "k") "k" ≡ Decoded.decoded page) ↔ (
    (raw : List ℕ) × Parts library (encode library page "k") raw (library.hmac "k" raw)
    × (library.loads raw ≡ Loaded.loaded (Value.obj page)))
decode_iff_example = decode_iff library (encode library page "k") "k" page
