-- ===== src/Register/Brreg/Suggest.antt =====
-- register/brreg.rs, `suggest_fau_name`: a registered name in another case.
use fau_portalen.Prelude.{
  ℕ, zero, suc, ◌+◌, ◌<◌, ◌≤◌, ◌≡◌, refl, Option, none, some, Bool, true, false, ◌&&◌, ◌||◌, not,
  List, [], ◌∷◌, ◌++◌, map, any, filter, find, arith, length, is_empty, if◌then◌else◌, ◌==◌,
  Bool-cases, either_way, inl, inr,
}
use fau_portalen.Text.{Text, Unicode, text_eq, codes, join, trim, is_whitespace}
use fau_portalen.Register.Search.{split_where, space}

-- `char::is_lowercase` and `char::to_uppercase`.
pub record Casing : Type 0 where
  pub is_lowercase : ℕ → Bool
  pub to_uppercase : ℕ → Text

abbrev pub acronyms : List Text
acronyms = codes "FAU" ∷ codes "SFO" ∷ codes "AU" ∷ []

-- `find` of a character that passes a test: what stands before it, and the rest from it on.
unfoldable pub before : (ℕ → Bool) → Text → Text
before test [] = []
before test (c ∷ s) = let more = c ∷ before test s in if test c then [] else more

unfoldable pub from_first : (ℕ → Bool) → Text → Text
from_first test [] = []
from_first test (c ∷ s) = let rest = from_first test s in if test c then c ∷ s else rest

-- `trim_matches`
unfoldable pub trim_end_matches : (ℕ → Bool) → Text → Text
trim_end_matches test [] = []
trim_end_matches test (c ∷ s) =
    let rest = trim_end_matches test s in if is_empty rest && test c then [] else c ∷ rest

unfoldable pub trim_matches : (ℕ → Bool) → Text → Text
trim_matches test s = trim_end_matches test (from_first (λ c. not (test c)) s)

module _ (u : Unicode) (casing : Casing) (school_words : List Text) where
  abbrev pub is_separator : ℕ → Bool
  is_separator c = not (u.is_alphanumeric c)

  abbrev pub capitalised : Text → Text
  capitalised [] = []
  capitalised (c ∷ s) = casing.to_uppercase c ++ s

  abbrev pub cased : Text → Bool → Option Text → Text
  cased lower first_run (some school) = school
  cased lower first_run none = if first_run then capitalised lower else lower

  unfoldable pub recase_run : Text → Bool → Text
  recase_run run first_run =
      let lower = u.to_lowercase run in
      if any (λ a. text_eq a run) acronyms
      then run
      else cased lower first_run (
          find (λ w. text_eq (u.to_lowercase w) lower)
            (map (trim_matches is_separator) school_words))

  -- The loop, for at most `fuel` rounds; `first_run` is `first && is_first_run`.
  unfoldable pub recase_from : ℕ → Bool → Text → Text
  recase_from zero first_run rest = []
  recase_from (suc fuel) first_run rest =
      let found = from_first u.is_alphanumeric rest in
      let remainder = from_first is_separator found in
      let more =
        recase_run (before is_separator found) first_run ++ recase_from fuel false remainder in
      if is_empty rest
      then []
      else if is_empty found
      then rest
      else before u.is_alphanumeric rest ++ more

  unfoldable pub recase : Text → Bool → Text
  recase word first = recase_from (length word + 1) first word

  unfoldable pub recase_words : Bool → List Text → List Text
  recase_words first [] = []
  recase_words first (w ∷ ws) = recase w first ∷ recase_words false ws

module _ (u : Unicode) (casing : Casing) where
  abbrev pub ends_word : ℕ → Bool
  ends_word c = is_whitespace c || c == b'-' || c == b'/'

  abbrev pub name_words : (ℕ → Bool) → Text → List Text
  name_words test name = filter (λ w. not (is_empty w)) (split_where test name)

  unfoldable pub suggest_fau_name : Text → Text → Text
  suggest_fau_name registered school_display_name =
      let name = trim registered in
      if any casing.is_lowercase name
      then name
      else join (space ∷ []) (
          recase_words u casing (name_words ends_word school_display_name) true
            (name_words is_whitespace name))

from_first-length : (test : ℕ → Bool) (s : Text) → length (from_first test s) ≤ length s
unfolding from_first
from_first-length test [] = omega arith
from_first-length test (c ∷ s) =
    either_way (λ (t : Text). length t ≤ suc (length s)) (test c) (λ h. omega arith)
      (λ h. omega (arith, from_first-length test s))

from_first_here :
    (test : ℕ → Bool) (c : ℕ) (s : Text) → test c ≡ true → from_first test (c ∷ s) ≡ c ∷ s
unfolding from_first
from_first_here test c s e = rw e refl

from_first_later :
    (test : ℕ → Bool) (c : ℕ) (s : Text)
    → test c ≡ false
    → from_first test (c ∷ s) ≡ from_first test s
unfolding from_first
from_first_later test c s e = rw e refl

-- A round takes at least one character.
round-length :
    (test : ℕ → Bool) (s : Text)
    → is_empty (from_first test s) ≡ false
    → length (from_first (λ c. not (test c)) (from_first test s)) < length s
round-length test [] h = absurd (unfold from_first in cc)
round-length test (c ∷ s) h = elim (Bool-cases (test c)) [
  | inl e ↦
      let n : not (test c) ≡ false = rw e refl in
      rw (from_first_here test c s e, from_first_later (λ d. not (test d)) c s n)
        (omega (arith, from_first-length (λ d. not (test d)) s))
  | inr e ↦
      let q = from_first_later test c s e in rw q (omega (arith, round-length test s (rw q at h)))
]

-- A round for each character is enough: with more, the loop gives the same.
pub recase_from-enough :
    (u : Unicode) (casing : Casing) (school_words : List Text) (m n : ℕ) (first_run : Bool)
    (rest : Text)
    → length rest < m
    → length rest < n
    → recase_from u casing school_words m first_run rest
      ≡ recase_from u casing school_words n first_run rest
unfolding recase_from
recase_from-enough u casing ws zero n first_run rest h k = absurd (omega arith)
recase_from-enough u casing ws (suc m) zero first_run rest h k = absurd (omega arith)
recase_from-enough u casing ws (suc m) (suc n) first_run rest h k =
    elim (Bool-cases (is_empty (from_first u.is_alphanumeric rest))) [
      | inl e ↦ rw e refl
      | inr e ↦
          let ih =
            recase_from-enough u casing ws m n false
              (from_first (λ c. not (u.is_alphanumeric c)) (from_first u.is_alphanumeric rest))
              (omega (arith, round-length u.is_alphanumeric rest e))
              (omega (arith, round-length u.is_alphanumeric rest e)) in
          rw ih refl
    ]
