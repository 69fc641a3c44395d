-- ===== src/Prelude/Bytes.antt =====
-- Texts as the bytes that C++ walks: a `std::string` is a list of numbers below 256.
use Prim.Native.Char.{code}
use duckdb_delta.Prelude.{
  ℕ, ◌<◌, ◌≡◌, refl, ==_refl, ==_iff, arith, Bool, true, false, ◌&&◌, ◌||◌, List, [], ◌∷◌, String,
  leb, ◌==◌, All,
}

abbrev pub Text : Type 0
Text = List ℕ

-- The bytes of an ASCII literal of the source.
abbrev pub bytes : String → Text
bytes String.[] = []
bytes (String.◌∷◌ c s) = code c ∷ bytes s

abbrev pub IsBytes : Text → Type 0
IsBytes = All λ c. c < 256

abbrev pub text_eq : Text → Text → Bool
text_eq [] [] = true
text_eq [] (d ∷ ds) = false
text_eq (c ∷ cs) [] = false
text_eq (c ∷ cs) (d ∷ ds) = (c == d) && text_eq cs ds

-- `StringUtil::StartsWith(s, prefix)`
abbrev pub starts_with : Text → Text → Bool
starts_with s [] = true
starts_with [] (p ∷ ps) = false
starts_with (c ∷ cs) (p ∷ ps) = (c == p) && starts_with cs ps

-- `StringUtil::CharacterIsDigit`, `CharacterIsAlpha`, `CharacterIsAlphaNumeric`
abbrev pub is_digit : ℕ → Bool
is_digit c = leb b'0' c && leb c b'9'

abbrev pub is_alpha : ℕ → Bool
is_alpha c = (leb b'a' c && leb c b'z') || (leb b'A' c && leb c b'Z')

abbrev pub is_alphanumeric : ℕ → Bool
is_alphanumeric c = is_alpha c || is_digit c

pub and-true : (a b : Bool) → (a && b) ≡ true → (a ≡ true) × (b ≡ true)
and-true a b h = ground arith

pub text_eq_sound : (s t : Text) → text_eq s t ≡ true → s ≡ t
text_eq_sound [] [] h = refl
text_eq_sound [] (d ∷ ds) h = cc
text_eq_sound (c ∷ cs) [] h = cc
text_eq_sound (c ∷ cs) (d ∷ ds) h =
    let (first, rest) = and-true (c == d) (text_eq cs ds) h in
    λ i. (==_iff c d).0 first i ∷ text_eq_sound cs ds rest i

pub text_eq_refl : (s : Text) → text_eq s s ≡ true
text_eq_refl [] = refl
text_eq_refl (c ∷ cs) = rw (==_refl c) (text_eq_refl cs)

pub text_eq_sym : (a b : Text) → text_eq a b ≡ text_eq b a
text_eq_sym [] [] = refl
text_eq_sym [] (d ∷ ds) = refl
text_eq_sym (c ∷ cs) [] = refl
text_eq_sym (c ∷ cs) (d ∷ ds) = ground (arith, text_eq_sym cs ds)
