-- ===== src/Register/Brreg/Words.antt =====
-- register/brreg.rs: the words of a name or a line, and the markers among them.
use fau_portalen.Prelude.{
  ℕ, suc, ◌+◌, ◌-◌, Option, none, some, Bool, true, false, ◌&&◌, ◌||◌, not, List, [], ◌∷◌, any,
  filter, length, take, drop, ltb, is_empty, if◌then◌else◌,
}
use fau_portalen.Prelude.Map.{is_some}
use fau_portalen.Text.{Text, Unicode, text_eq, codes, split, join, is_ascii_digit}
use fau_portalen.Register.Search.{search_query, space}

abbrev pub fau_words : List Text
fau_words =
    codes "fau"
    ∷ codes "arbeidsutvalg"
    ∷ codes "arbeidsutval"
    ∷ codes "arbeidsutvalet"
    ∷ codes "arbeidsutvalget"
    ∷ codes "foreldrerad"
    ∷ codes "foreldreradet"
    ∷ []

abbrev pub generic_words : List Text
generic_words =
    codes "fau"
    ∷ codes "foreldrenes"
    ∷ codes "foreldreradets"
    ∷ codes "foreldreradet"
    ∷ codes "foreldrerad"
    ∷ codes "arbeidsutvalg"
    ∷ codes "arbeidsutval"
    ∷ codes "arbeidsutvalet"
    ∷ codes "arbeidsutvalget"
    ∷ codes "ved"
    ∷ codes "pa"
    ∷ codes "for"
    ∷ codes "i"
    ∷ codes "og"
    ∷ codes "v"
    ∷ codes "skole"
    ∷ codes "skolen"
    ∷ codes "skoles"
    ∷ codes "skule"
    ∷ codes "skulen"
    ∷ codes "skules"
    ∷ codes "barneskole"
    ∷ codes "barneskule"
    ∷ codes "ungdomsskole"
    ∷ codes "ungdomsskule"
    ∷ codes "ungdomskole"
    ∷ codes "barne"
    ∷ codes "oppvekstsenter"
    ∷ []

abbrev pub school_words : List Text
school_words =
    codes "skole"
    ∷ codes "skolen"
    ∷ codes "skule"
    ∷ codes "skulen"
    ∷ codes "barneskole"
    ∷ codes "barneskule"
    ∷ codes "ungdomsskole"
    ∷ codes "ungdomsskule"
    ∷ codes "oppvekstsenter"
    ∷ []

abbrev pub is_among : Text → List Text → Bool
is_among w words = any (text_eq w) words

abbrev pub is_school_word : Text → Bool
is_school_word w = is_among w school_words

abbrev pub nonempty_words : Text → List Text
nonempty_words query = filter (λ w. not (is_empty w)) (split space query)

module _ (u : Unicode) where
  unfoldable pub is_fau_name : Text → Bool
  is_fau_name name = any (λ w. is_among w fau_words) (split space (search_query u name))

  unfoldable pub fold_words : Text → List Text
  fold_words line = nonempty_words (search_query u line)

  unfoldable pub core_words : Text → List Text
  core_words name =
      filter (λ w. not (is_empty w) && not (is_among w generic_words))
        (split space (search_query u name))

  unfoldable pub name_core : Text → Text
  name_core name = join (space ∷ []) (core_words name)

abbrev pub later : Option ℕ → Option ℕ
later none = none
later (some i) = some (suc i)

-- `windows(2).position(..)` of two words.
unfoldable pub find_pair : Text → Text → List Text → Option ℕ
find_pair a b [] = none
find_pair a b (v ∷ []) = none
find_pair a b (v ∷ w ∷ ws) =
    let rest = later (find_pair a b (w ∷ ws)) in if text_eq v a && text_eq w b then some 0 else rest

-- `position` and `rposition`.
unfoldable pub position : (Text → Bool) → List Text → Option ℕ
position p [] = none
position p (w ∷ ws) = let rest = later (position p ws) in if p w then some 0 else rest

unfoldable pub rposition : (Text → Bool) → List Text → Option ℕ
rposition p [] = none
rposition p (w ∷ ws) = elim (rposition p ws) [
  | some i ↦ some (suc i)
  | none ↦ if p w then some 0 else none
]

abbrev pub has_digit : Text → Bool
has_digit w = any is_ascii_digit w

unfoldable pub first_digit_index : List Text → Option ℕ
first_digit_index words = position has_digit words

abbrev pub is_v : Text → Bool
is_v w = text_eq w (codes "v")

abbrev pub after_v : ℕ → Option ℕ → Option ℕ
after_v first_digit none = none
after_v first_digit (some i) = some (first_digit + 1 + i + 1)

-- The last part of `marker_end`; the words but the last are none where there are none.
abbrev pub v_after : ℕ → List Text → Option ℕ
v_after first_digit after =
    if is_empty after
    then none
    else after_v first_digit (position is_v (take (length after - 1) after))

abbrev pub v_marker : List Text → ℕ → Option ℕ → Option ℕ
v_marker words first_digit (some i) = some (i + 1)
v_marker words first_digit none = v_after first_digit (drop (first_digit + 1) words)

abbrev pub v_marker_end : List Text → Option ℕ → Option ℕ
v_marker_end words none = none
v_marker_end words (some first_digit) =
    v_marker words first_digit (rposition is_v (take first_digit words))

abbrev pub care_of_end : List Text → Option ℕ → Option ℕ
care_of_end words (some i) = some (i + 2)
care_of_end words none = v_marker_end words (first_digit_index words)

unfoldable pub marker_end : List Text → Option ℕ
marker_end words = care_of_end words (find_pair (codes "c") (codes "o") words)

unfoldable pub is_personal : List Text → Bool
is_personal words = is_some (marker_end words)

abbrev pub starts_with : List Text → List Text → Bool
starts_with [] words = true
starts_with (n ∷ ns) [] = false
starts_with (n ∷ ns) (w ∷ ws) = text_eq w n && starts_with ns ws

-- `windows(n).position(..)` of a sequence of `n` words, at least one.
unfoldable pub sequence_start : List Text → List Text → Option ℕ
sequence_start needle [] = none
sequence_start needle (w ∷ ws) =
    let rest = later (sequence_start needle ws) in
    if starts_with needle (w ∷ ws) then some 0 else rest

abbrev pub end_of : List Text → Option ℕ → Option ℕ
end_of needle none = none
end_of needle (some start) = some (start + length needle)

unfoldable pub find_sequence : List Text → List Text → Option ℕ
find_sequence haystack needle =
    if is_empty needle || ltb (length haystack) (length needle)
    then none
    else end_of needle (sequence_start needle haystack)

unfoldable pub is_postbox : List Text → Bool
is_postbox words =
    any (λ w. text_eq w (codes "postboks") || text_eq w (codes "pb") || text_eq w (codes "boks"))
      words
    || is_some (find_pair (codes "p") (codes "b") words)
