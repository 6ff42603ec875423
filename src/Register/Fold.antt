-- ===== src/Register/Fold.antt =====
-- register/text.rs: the Latin folding that slugs and search share.
pub mod Words
use fau_portalen.Prelude.{
  ℕ, Bool, true, false, ◌&&◌, ◌||◌, not, List, [], ◌∷◌, ◌++◌, ◌==◌, if◌then◌else◌, is_empty, filter,
}
use fau_portalen.Text.{Text, Unicode, is_ascii_digit, is_ascii_lowercase, to_ascii_lowercase}

pub data Letters : Type 0 where
  transliterate lossy : Letters

-- The arms of the `match` on a character: first those that depend on `Letters`.
unfoldable pub map_norwegian : Letters → ℕ → Text → Text
map_norwegian transliterate c other =
    if c == 0xe6 || c == 0xe4
    then b'a' ∷ b'e' ∷ []
    else if c == 0xf8 || c == 0xf6
    then b'o' ∷ b'e' ∷ []
    else if c == 0xe5
    then b'a' ∷ b'a' ∷ []
    else other
map_norwegian lossy c other =
    if c == 0xe6 || (c == 0xe4 || c == 0xe5)
    then b'a' ∷ []
    else if c == 0xf8 || c == 0xf6
    then b'o' ∷ []
    else other

-- đ, ŋ, ŧ and ß, then `_`.
unfoldable pub map_letter : Letters → ℕ → Text
unfolding map_norwegian
map_letter letters c = map_norwegian letters c (
    if c == 0x111
    then b'd' ∷ []
    else if c == 0x14b
    then b'n' ∷ []
    else if c == 0x167
    then b't' ∷ []
    else if c == 0xdf
    then b's' ∷ b's' ∷ []
    else c ∷ [])

unfoldable pub map_letters : Letters → Text → Text
unfolding map_letter
map_letters letters [] = []
map_letters letters (c ∷ s) = map_letter letters c ++ map_letters letters s

unfoldable pub latin_fold : Unicode → Text → Letters → Text
unfolding map_letters
latin_fold u input letters =
    let lower = u.to_lowercase (u.nfc input) in
    filter (λ c. not (u.is_combining_mark c)) (u.nfkd (map_letters letters lower))

abbrev pub is_apostrophe : ℕ → Bool
is_apostrophe c = c == 39 || (c == 0x2019 || (c == 0x2bc || c == 96))

-- `[a-z0-9]`
abbrev pub is_kept : ℕ → Bool
is_kept c = is_ascii_lowercase c || is_ascii_digit c

-- The variables of the loop of `collapse`.
pub record Collapsed : Type 0 where
  pub out : Text
  pub gap : Bool

-- `if gap && !out.is_empty() { out.push(sep) }`, then `out.push(c)`.
unfoldable pub push_char : ℕ → Bool → Text → ℕ → Text
push_char sep gap out c =
    if gap && not (is_empty out) then out ++ (sep ∷ c ∷ []) else out ++ (c ∷ [])

-- One round of the loop.
unfoldable pub collapse_step : ℕ → Collapsed → ℕ → Collapsed
collapse_step sep s c =
    let lower = to_ascii_lowercase c in
    if is_apostrophe c
    then s
    else if is_kept lower
    then record { out = push_char sep s.gap s.out lower; gap = false }
    else record { out = s.out; gap = true }

unfoldable pub collapse_from : ℕ → Collapsed → Text → Collapsed
unfolding collapse_step
collapse_from sep s [] = s
collapse_from sep s (c ∷ input) = collapse_from sep (collapse_step sep s c) input

unfoldable pub collapse : Text → ℕ → Text
unfolding collapse_from
collapse input sep = (collapse_from sep (record { out = []; gap = false }) input).out
