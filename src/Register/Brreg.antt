-- ===== src/Register/Brreg.antt =====
-- register/brreg.rs: names and addresses of FAU-er in Brreg. Words tells the kinds of words and lines,
-- Street writes a street line; proofs in Personal, Keys, Marked, Marker and CareOf.
pub mod Words
pub mod Street
pub mod Suggest
pub mod Personal
pub mod Keys
pub mod Marked
pub mod Marker
pub mod CareOf
use fau_portalen.Prelude.{
  ℕ, ◌+◌, Ordering, then_by, is_eq, sort_by, Option, none, some, Bool, true, false, ◌&&◌, not, List,
  [], ◌∷◌, any, all, filter, length, take, drop, ltb, is_empty, if◌then◌else◌, ◌==◌,
}
use fau_portalen.Text.{Text, Unicode, text_cmp, trim, is_ascii_digit}
use fau_portalen.Register.Brreg.Words.{
  fold_words, is_personal, marker_end, first_digit_index, is_school_word, name_core, nonempty_words,
  find_sequence,
}
use fau_portalen.Register.Brreg.Street.{normalise_street_words}

pub record AddressKey : Type 0 where
  pub street : Text
  pub postcode : Text

-- `Ord` as it is derived.
unfoldable pub key_cmp : AddressKey → AddressKey → Ordering
key_cmp a b = then_by (text_cmp a.street b.street) (text_cmp a.postcode b.postcode)

-- `dedup`: a key equal to the last one kept goes.
unfoldable pub dedup_keys_after : AddressKey → List AddressKey → List AddressKey
dedup_keys_after last [] = []
dedup_keys_after last (k ∷ ks) =
    let rest = dedup_keys_after last ks in
    let kept = k ∷ dedup_keys_after k ks in if is_eq (key_cmp last k) then rest else kept

unfoldable pub dedup_keys : List AddressKey → List AddressKey
dedup_keys [] = []
dedup_keys (k ∷ ks) = k ∷ dedup_keys_after k ks

-- A postcode of four ASCII digits has four bytes.
abbrev pub four_digits : Text → Option Text
four_digits p = if length p == 4 && all is_ascii_digit p then some p else none

unfoldable pub valid_postcode : Option Text → Option Text
valid_postcode none = none
valid_postcode (some p) = four_digits (trim p)

-- The end of both functions: the streets as sorted keys without repeats.
unfoldable pub keys_with : Text → List Text → List AddressKey
keys_with postcode [] = []
keys_with postcode (s ∷ streets) =
    record { street = s; postcode = postcode } ∷ keys_with postcode streets

unfoldable pub sorted_keys : Option Text → List Text → List AddressKey
sorted_keys none streets = []
sorted_keys (some postcode) streets = dedup_keys (sort_by key_cmp (keys_with postcode streets))

abbrev pub push_some : Option Text → List Text → List Text
push_some none streets = streets
push_some (some s) streets = s ∷ streets

-- `filter_map`
unfoldable pub streets_of : (Text → Option Text) → List Text → List Text
streets_of street [] = []
streets_of street (line ∷ lines) = push_some (street line) (streets_of street lines)

-- `name_part.get(core_end)`, which has to be a school word.
abbrev pub next_school : ℕ → List Text → Option ℕ
next_school core_end [] = none
next_school core_end (next ∷ rest) = if is_school_word next then some (core_end + 1) else none

abbrev pub core_match : List Text → Option ℕ → Option ℕ
core_match name_part none = none
core_match name_part (some core_end) = next_school core_end (drop core_end name_part)

-- Where the name part names the school, the end of the match.
unfoldable pub school_match_end : List Text → List Text → List Text → Option ℕ
school_match_end name_part school_lossy school_core = elim (find_sequence name_part school_lossy) [
  | some n ↦ some n
  | none ↦ core_match name_part (find_sequence name_part school_core)
]

module _ (u : Unicode) where
  unfoldable pub street_line : Text → Option Text
  street_line line =
      let words = fold_words u line in
      if is_personal words then none else normalise_street_words words

  unfoldable pub address_keys : List Text → Option Text → List AddressKey
  address_keys lines postcode = sorted_keys (valid_postcode postcode) (streets_of street_line lines)

  abbrev pub digit_or_end : List Text → Option ℕ → ℕ
  digit_or_end words (some i) = i
  digit_or_end words none = length words

  -- The words from the marker's end to the first with a digit.
  abbrev pub name_part : List Text → ℕ → ℕ → List Text
  name_part words marker name_end = drop marker (take name_end words)

  abbrev pub street_after : List Text → ℕ → Option ℕ → Option Text
  street_after words marker none = none
  street_after words marker (some matched) = normalise_street_words (drop (marker + matched) words)

  abbrev pub marked_line : List Text → List Text → List Text → Option ℕ → Option Text
  marked_line school_lossy school_core words none = none
  marked_line school_lossy school_core words (some marker) =
      let name_end = digit_or_end words (first_digit_index words) in
      let matched = school_match_end (name_part words marker name_end) school_lossy school_core in
      if ltb name_end marker then none else street_after words marker matched

  unfoldable pub care_of_line : List Text → List Text → Text → Option Text
  care_of_line school_lossy school_core line =
      let words = fold_words u line in marked_line school_lossy school_core words (marker_end words)

  unfoldable pub care_of_keys : List Text → Option Text → Text → List AddressKey
  care_of_keys lines postcode school_name = sorted_keys (valid_postcode postcode) (
      streets_of
        (care_of_line (fold_words u school_name) (nonempty_words (name_core u school_name))) lines)
