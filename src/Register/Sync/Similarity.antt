-- ===== src/Register/Sync/Similarity.antt =====
-- register/sync/similarity.rs: trigram similarity. Its results are finite `f32`s that are not negative:
-- such a number is its bit pattern, which orders as the number does.
pub mod Bounds
use fau_portalen.Prelude.{
  ℕ, ◌+◌, ◌-◌, Bool, not, List, [], ◌∷◌, ◌++◌, any, filter, length, is_empty, if◌then◌else◌, ◌==◌,
}
use fau_portalen.Text.{Text, Unicode, text_eq, split}
use fau_portalen.Register.Search.{search_query, space}

-- What the code uses of `f32`: the quotient of two counts, and `format!("{:.2}")`.
pub record Floats : Type 0 where
  pub quotient : ℕ → ℕ → ℕ
  pub two_decimals : ℕ → Text

-- `0.45_f32` and `0.6_f32`.
abbrev pub submission_match_threshold : ℕ
submission_match_threshold = 0x3ee66666

abbrev pub reregistration_threshold : ℕ
reregistration_threshold = 0x3f19999a

-- `windows(3)`
unfoldable pub windows : Text → List Text
windows [] = []
windows (a ∷ []) = []
windows (a ∷ b ∷ []) = []
windows (a ∷ b ∷ c ∷ s) = (a ∷ b ∷ c ∷ []) ∷ windows (b ∷ c ∷ s)

-- A set of texts, as the list of its elements; only its size is read, and which elements it has.
abbrev pub has_element : Text → List Text → Bool
has_element t set = any (text_eq t) set

unfoldable pub add_all : List Text → List Text → List Text
add_all set [] = set
add_all set (w ∷ ws) = add_all (if has_element w set then set else w ∷ set) ws

unfoldable pub trigrams_from : List Text → List Text → List Text
unfolding windows add_all
trigrams_from set [] = set
trigrams_from set (word ∷ words) =
    trigrams_from (add_all set (windows (space ∷ space ∷ (word ++ (space ∷ []))))) words

unfoldable pub trigrams : Text → List Text
unfolding trigrams_from
trigrams query = trigrams_from [] (filter (λ w. not (is_empty w)) (split space query))

-- `intersection(..).count()`
unfoldable pub common_count : List Text → List Text → ℕ
common_count ta tb = length (filter (λ t. has_element t tb) ta)

unfoldable pub union_count : List Text → List Text → ℕ
union_count ta tb = length ta + length tb - common_count ta tb

unfoldable pub similarity : Unicode → Floats → Text → Text → ℕ
similarity u floats a b =
    let ta = trigrams (search_query u a) in
    let tb = trigrams (search_query u b) in
    if union_count ta tb == 0 then 0 else floats.quotient (common_count ta tb) (union_count ta tb)
