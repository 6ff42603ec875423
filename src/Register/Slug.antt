-- ===== src/Register/Slug.antt =====
-- register/slug.rs: how slugs are minted and resolved. A slug is ASCII, so its bytes are its
-- characters. The proofs stand in the modules below.
pub mod Form
mod Decimal
pub mod Free
pub mod Resolve
use fau_portalen.Prelude.{
  ℕ, zero, suc, ◌+◌, ◌-◌, ◌/◌, ◌%◌, Result, ok, err, ok_of, ◌>>=◌, ◌>>◌, refuse_if, Bool, true,
  false, ◌&&◌, ◌||◌, not, List, [], ◌∷◌, ◌++◌, Option, none, some, ltb, leb, ◌==◌, if◌then◌else◌,
  is_empty, all, length, take, get_elem?,
}
use fau_portalen.Text.{Text, Unicode, is_ascii_digit}
use fau_portalen.Register.Fold.{latin_fold, collapse, transliterate}

abbrev pub max_slug_len : ℕ
max_slug_len = 80

abbrev pub dash : ℕ
dash = b'-'

pub data SlugError : Type 0 where
  empty invalid_municipality_number : SlugError

pub data Resolution {ℓ} (Holder : Type ℓ) : Type ℓ where
  current : Holder → Resolution Holder
  redirect : Holder → Resolution Holder
  not_found : Resolution Holder

-- `rfind`: the position of the last occurrence.
unfoldable pub rfind : ℕ → Text → Option ℕ
rfind c [] = none
rfind c (d ∷ s) = elim (rfind c s) [
  | some i ↦ some (suc i)
  | none ↦ if d == c then some 0 else none
]

-- `s.as_bytes()[i] == c`; the position is inside the text where this is asked.
abbrev pub char_is : Option ℕ → ℕ → Bool
char_is none c = false
char_is (some d) c = d == c

abbrev pub up_to : Text → Option ℕ → Text
up_to head (some i) = take i head
up_to head none = head

unfoldable pub cut_to_len : Text → ℕ → Text
unfolding rfind
cut_to_len s max_len =
    if leb (length s) max_len
    then s
    else if char_is (get_elem? s max_len) dash
    then take max_len s
    else up_to (take max_len s) (rfind dash (take max_len s))

unfoldable pub cap : Text → Text
unfolding cut_to_len
cap slug = cut_to_len slug max_slug_len

unfoldable pub slugify : Unicode → Text → Result SlugError Text
slugify u name =
    let slug = cap (collapse (latin_fold u name transliterate) dash) in
    if is_empty slug then err empty else ok slug

-- `saturating_sub` is the subtraction of ℕ.
unfoldable pub make_room_for : Text → Text → Text
make_room_for base suffix =
    let budget = max_slug_len - (1 + length suffix) in
    if leb (length base) budget then base else cut_to_len base budget

unfoldable pub municipality_slug : Unicode → Text → Text → Result SlugError Text
municipality_slug u number norwegian_name = do
  refuse_if (not (length number == 4) || not (all is_ascii_digit number))
      invalid_municipality_number
  slug ← slugify u norwegian_name
  ok (number ++ (dash ∷ slug))

-- `u32::to_string`, the decimal digits; ten digits are enough for a `u32`, and `n + 1` for any `n`.
unfoldable pub decimal_from : ℕ → ℕ → Text
decimal_from zero n = []
decimal_from (suc fuel) n =
    let more = decimal_from fuel (n / 10) ++ ((48 + n % 10) ∷ []) in
    if ltb n 10 then (48 + n) ∷ [] else more

unfoldable pub decimal : ℕ → Text
unfolding decimal_from
decimal n = decimal_from (n + 1) n

-- `format!("{}-{suffix}", make_room_for(stem, suffix))`.
unfoldable pub with_suffix : Text → Text → Text
with_suffix stem suffix = make_room_for stem suffix ++ (dash ∷ suffix)

-- The numbered candidates from `n` on: `(2u32..).map(..).find(..)`, for at most `fuel` of them.
unfoldable pub first_numbered : ℕ → ℕ → Text → (Text → Bool) → Option Text
first_numbered zero n stem is_taken = none
first_numbered (suc fuel) n stem is_taken =
    let candidate = with_suffix stem (decimal n) in
    let rest = first_numbered fuel (n + 1) stem is_taken in
    if is_taken candidate then rest else some candidate

-- `post_town.and_then(|t| slugify(t).ok())`.
abbrev pub slug_of_town : Unicode → Option Text → Option Text
slug_of_town u none = none
slug_of_town u (some town) = ok_of (slugify u town)

abbrev pub numbered_from_two : ℕ → Text → (Text → Bool) → Option Text
numbered_from_two fuel stem is_taken = first_numbered fuel 2 stem is_taken

-- What follows when the base slug is taken: the post town's slug, if there is one, then numbers.
unfoldable pub free_with_town : ℕ → Text → Option Text → (Text → Bool) → Option Text
free_with_town fuel base none is_taken = numbered_from_two fuel base is_taken
free_with_town fuel base (some town) is_taken =
    let with_town = with_suffix base town in
    if is_taken with_town then numbered_from_two fuel with_town is_taken else some with_town

-- `fuel` bounds the numbered candidates that are tried; `none` stands for the source's `expect`
-- failing.
unfoldable pub first_free_slug : Unicode → ℕ → Text → Option Text → (Text → Bool) → Option Text
first_free_slug u fuel base post_town is_taken =
    if is_taken base
    then free_with_town fuel base (slug_of_town u post_town) is_taken
    else some base

-- `Holder: PartialEq` is a Boolean test.
unfoldable pub resolve {ℓ} :
    {Holder : Type ℓ} → (Holder → Holder → Bool) → Option Holder → List Holder → Resolution Holder
resolve eq (some id) historical = current id
resolve eq none [] = not_found
resolve eq none (first ∷ rest) = if all (λ h. eq h first) rest then redirect first else not_found
