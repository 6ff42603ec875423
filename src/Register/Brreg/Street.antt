-- ===== src/Register/Brreg/Street.antt =====
-- register/brreg.rs: a street line as it is compared.
use fau_portalen.Prelude.{
  ℕ, Option, none, some, Bool, false, ◌&&◌, ◌||◌, not, List, [], ◌∷◌, ◌++◌, all, is_empty,
  if◌then◌else◌,
}
use fau_portalen.Prelude.Map.{is_some}
use fau_portalen.Text.{Text, text_eq, codes, join, is_ascii_digit, is_ascii_lowercase}
use fau_portalen.Register.Search.{space}
use fau_portalen.Register.Brreg.Words.{first_digit_index, is_postbox}

abbrev put_first : ℕ → Option Text → Option Text
put_first c none = none
put_first c (some s) = some (c ∷ s)

unfoldable pub strip_suffix : Text → Text → Option Text
strip_suffix suffix [] = if is_empty suffix then some [] else none
strip_suffix suffix (c ∷ s) =
    let rest = put_first c (strip_suffix suffix s) in
    if text_eq (c ∷ s) suffix then some [] else rest

abbrev pub suffixes : List (Text × Text)
suffixes =
    (codes "veien", codes "vei")
    ∷ (codes "vegen", codes "vei")
    ∷ (codes "veg", codes "vei")
    ∷ (codes "gaten", codes "gate")
    ∷ (codes "gata", codes "gate")
    ∷ []

-- The loop over the suffixes.
unfoldable pub canonical_suffix : Text → List (Text × Text) → Option Text
canonical_suffix word [] = none
canonical_suffix word ((suffix, canonical) ∷ rest) = elim (strip_suffix suffix word) [
  | some stem ↦ some (stem ++ canonical)
  | none ↦ canonical_suffix word rest
]

abbrev pub short_form : Text → Text
short_form word =
    if text_eq word (codes "vn") || text_eq word (codes "v")
    then codes "vei"
    else if text_eq word (codes "gt")
    then codes "gate"
    else word

unfoldable pub street_word : Text → Text
street_word word = elim (canonical_suffix word suffixes) [ some s ↦ s | none ↦ short_form word ]

abbrev pub is_house_letter : Text → Bool
is_house_letter [] = false
is_house_letter (c ∷ []) = is_ascii_lowercase c
is_house_letter (c ∷ d ∷ s) = false

-- `out.last_mut()`: whether it is digits alone, and what `push_str` makes of it.
abbrev pub last_is_number : List Text → Bool
last_is_number [] = false
last_is_number (w ∷ []) = all is_ascii_digit w
last_is_number (w ∷ v ∷ ws) = last_is_number (v ∷ ws)

abbrev pub merge_last : List Text → Text → List Text
merge_last [] word = []
merge_last (w ∷ []) word = (w ++ word) ∷ []
merge_last (w ∷ v ∷ ws) word = w ∷ merge_last (v ∷ ws) word

-- One round of the loop.
unfoldable pub push_word : List Text → Text → List Text
push_word out word =
    if is_house_letter word && last_is_number out
    then merge_last out word
    else out ++ (street_word word ∷ [])

unfoldable pub push_words : List Text → List Text → List Text
push_words out [] = out
push_words out (word ∷ words) = push_words (push_word out word) words

unfoldable pub normalise_street_words : List Text → Option Text
normalise_street_words words =
    if is_postbox words || not (is_some (first_digit_index words))
    then none
    else some (join (space ∷ []) (push_words [] words))
