-- ===== src/Text/Trim.antt =====
-- Texts, character tests and `str::trim`.
use fau_portalen.Prelude.{
  ℕ, ◌+◌, ◌≡◌, ◌↔◌, ◌∙◌, refl, ap, Bool, true, false, ◌&&◌, ◌||◌, List, [], ◌∷◌, arith, ltb, leb,
  ◌==◌, if◌then◌else◌, is_empty,
}

abbrev pub Text : Type 0
Text = List ℕ

unfoldable pub is_whitespace : ℕ → Bool
is_whitespace c =
    (leb 9 c && leb c 13)
    || c == 32
    || c == 0x85
    || c == 0xa0
    || c == 0x1680
    || (leb 0x2000 c && leb c 0x200a)
    || c == 0x2028
    || c == 0x2029
    || c == 0x202f
    || c == 0x205f
    || c == 0x3000

unfoldable pub is_control : ℕ → Bool
is_control c = ltb c 32 || (leb 127 c && ltb c 160)

abbrev pub is_ascii_digit : ℕ → Bool
is_ascii_digit c = leb 48 c && leb c 57

abbrev pub is_ascii_lowercase : ℕ → Bool
is_ascii_lowercase c = leb 97 c && leb c 122

abbrev pub is_ascii_uppercase : ℕ → Bool
is_ascii_uppercase c = leb 65 c && leb c 90

abbrev pub is_ascii_alphanumeric : ℕ → Bool
is_ascii_alphanumeric c = is_ascii_digit c || is_ascii_lowercase c || is_ascii_uppercase c

abbrev pub to_ascii_lowercase : ℕ → ℕ
to_ascii_lowercase c = if is_ascii_uppercase c then c + 32 else c

-- `char::len_utf8`, and `str::len`, which counts bytes.
abbrev pub len_utf8 : ℕ → ℕ
len_utf8 c = if ltb c 0x80 then 1 else if ltb c 0x800 then 2 else if ltb c 0x10000 then 3 else 4

abbrev pub len_bytes : Text → ℕ
len_bytes [] = 0
len_bytes (c ∷ s) = len_utf8 c + len_bytes s

abbrev pub text_eq : Text → Text → Bool
text_eq [] [] = true
text_eq [] (d ∷ t) = false
text_eq (c ∷ s) [] = false
text_eq (c ∷ s) (d ∷ t) = c == d && text_eq s t

pub text_eq_iff : (s t : Text) → (text_eq s t ≡ true) ↔ (s ≡ t)
text_eq_iff [] [] = ground arith
text_eq_iff [] (d ∷ t) = ground arith
text_eq_iff (c ∷ s) [] = ground arith
text_eq_iff (c ∷ s) (d ∷ t) = ground (arith, text_eq_iff s t)

abbrev pub trim_start : Text → Text
trim_start [] = []
trim_start (c ∷ s) = let rest = trim_start s in if is_whitespace c then rest else c ∷ s

abbrev pub trim_end : Text → Text
trim_end [] = []
trim_end (c ∷ s) =
    let rest = trim_end s in if is_empty rest && is_whitespace c then [] else c ∷ rest

unfoldable pub trim : Text → Text
trim s = trim_end (trim_start s)

-- A text that neither begins nor ends with white space.
abbrev pub starts_solid : Text → Bool
starts_solid [] = true
starts_solid (c ∷ s) = if is_whitespace c then false else true

abbrev pub ends_solid : Text → Bool
ends_solid [] = true
ends_solid (c ∷ []) = if is_whitespace c then false else true
ends_solid (c ∷ d ∷ s) = ends_solid (d ∷ s)

trim_start_solid : (s : Text) → starts_solid (trim_start s) ≡ true
trim_start_solid [] = refl
trim_start_solid (c ∷ s) = ground (arith, trim_start_solid s)

trim_start_id : (s : Text) → starts_solid s ≡ true → trim_start s ≡ s
trim_start_id [] h = refl
trim_start_id (c ∷ s) h = ground arith

trim_end_solid : (s : Text) → ends_solid (trim_end s) ≡ true
trim_end_solid [] = refl
trim_end_solid (c ∷ s) = ground (arith, trim_end_solid s)

trim_end_keeps_start : (s : Text) → starts_solid s ≡ true → starts_solid (trim_end s) ≡ true
trim_end_keeps_start [] h = refl
trim_end_keeps_start (c ∷ s) h = ground arith

trim_end_id : (s : Text) → ends_solid s ≡ true → trim_end s ≡ s
trim_end_id [] h = refl
trim_end_id (c ∷ []) h = ground arith
trim_end_id (c ∷ d ∷ s) h = ground (arith, trim_end_id (d ∷ s))

pub trim_solid : (s : Text) → (starts_solid (trim s) ≡ true) × (ends_solid (trim s) ≡ true)
unfolding trim
trim_solid s =
    (trim_end_keeps_start (trim_start s) (trim_start_solid s), trim_end_solid (trim_start s))

pub trim_id : (s : Text) → starts_solid s ≡ true → ends_solid s ≡ true → trim s ≡ s
unfolding trim
trim_id s h k = ap trim_end (trim_start_id s h) ∙ trim_end_id s k

pub trim-trim : (s : Text) → trim (trim s) ≡ trim s
trim-trim s = trim_id (trim s) (trim_solid s).0 (trim_solid s).1
