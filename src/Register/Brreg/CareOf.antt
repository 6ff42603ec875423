-- ===== src/Register/Brreg/CareOf.antt =====
-- register/brreg.rs, `care_of_keys`: the lines that name the school.
use mathlib.Core.List.{append_assoc}
use fau_portalen.Prelude.{
  ℕ, ◌+◌, ◌≡◌, refl, sym, ap, ◌∙◌, Option, none, some, Bool, false, ◌||◌, List, ◌++◌, Memᴰ, any,
  any-append, length, length-append, take, drop, ltb, arith, Bool-cases, inl, inr,
}
use fau_portalen.Text.{Text, Unicode, codes}
use fau_portalen.Register.Brreg.Words.{
  fold_words, marker_end, first_digit_index, find_pair, name_core, nonempty_words,
}
use fau_portalen.Register.Brreg.Street.{normalise_street_words}
use fau_portalen.Register.Brreg.{
  AddressKey, valid_postcode, school_match_end, name_part, street_after, marked_line, care_of_line,
  care_of_keys,
}
use fau_portalen.Register.Brreg.Personal.{is_numbered}
use fau_portalen.Register.Brreg.Marked.{drop-append, take-drop, school_match_end-some}
use fau_portalen.Register.Brreg.Keys.{sorted_keys_iff, IsPostcode, IsPostcode-iff}
use fau_portalen.Register.Brreg.Marker.{IsCareOf, name_end, take-unnumbered, MarkedAt, marked_end}

-- The cut of the words before the name's end, and of all words.
whole_cut :
    (words taken left a behind xs named ys : List Text)
    → words ≡ taken ++ left
    → taken ≡ a ++ behind
    → behind ≡ xs ++ (named ++ ys)
    → (words ≡ a ++ (xs ++ (named ++ (ys ++ left))))
      × (words ≡ (a ++ (xs ++ named)) ++ (ys ++ left))
whole_cut words taken left a behind xs named ys e f g =
    let whole : words ≡ (a ++ (xs ++ (named ++ ys))) ++ left =
      e ∙ ap (λ t. t ++ left) (f ∙ ap (λ t. a ++ t) g) in
    let parts : words ≡ a ++ (xs ++ (named ++ (ys ++ left))) =
      whole ∙ rw (append_assoc a, append_assoc xs, append_assoc named) refl in
    (
      parts,
      parts
          ∙ (ap (λ t. a ++ t) (sym (append_assoc xs named (ys ++ left)))
              ∙ sym (append_assoc a (xs ++ named) (ys ++ left))),
    )

unnumbered_part :
    (a xs named b ys i : Bool) {d f : Bool}
    → b ≡ (a || d)
    → d ≡ (xs || f)
    → f ≡ (named || ys)
    → i ≡ (a || (xs || named))
    → b ≡ false
    → i ≡ false
unnumbered_part a xs named b ys i p q r x z = ground (arith, p, q, r, x, z)

front_unnumbered :
    (taken a behind xs named ys : List Text)
    → taken ≡ a ++ behind
    → behind ≡ xs ++ (named ++ ys)
    → any is_numbered taken ≡ false
    → any is_numbered (a ++ (xs ++ named)) ≡ false
front_unnumbered taken a behind xs named ys e f h =
    let h' : any is_numbered (a ++ (xs ++ (named ++ ys))) ≡ false =
      ap (any is_numbered) (sym (e ∙ ap (λ t. a ++ t) f)) ∙ h in
    let p = any-append is_numbered a (xs ++ (named ++ ys)) in
    let q = any-append is_numbered xs (named ++ ys) in
    let r = any-append is_numbered named ys in
    let x =
      any-append is_numbered a (xs ++ named)
      ∙ ap (λ b. any is_numbered a || b) (any-append is_numbered xs named) in
    unnumbered_part (any is_numbered a) (any is_numbered xs) (any is_numbered named) _
      (any is_numbered ys) _ p q r x h'

module _ (u : Unicode) (school_lossy school_core : List Text) where
  -- Where the words up to the name's end are a marked part and what is behind it, the name found behind
  -- it cuts the line.
  cut :
      (words : List Text) (m n : ℕ) (street : Text)
      → MarkedAt u m (take (name_end u words) words)
      → school_match_end (drop m (take (name_end u words) words)) school_lossy school_core ≡ some n
      → normalise_street_words (drop (m + n) words) ≡ some street
      → IsCareOf school_lossy school_core words street
  unfolding first_digit_index
  cut words m n street (before, marker, behind, mark, e, l) h s =
      let taken = take (name_end u words) words in
      let left = drop (name_end u words) words in
      let a = before ++ marker in
      let dropped : drop m taken ≡ behind =
        ap (λ k. drop k taken) (sym l) ∙ (ap (drop (length a)) e ∙ drop-append a behind) in
      let (named, which, (xs, ys, f, g)) =
        school_match_end-some behind school_lossy school_core n
          (ap (λ w. school_match_end w school_lossy school_core) (sym dropped) ∙ h) in
      let cut_so =
        whole_cut words taken left a behind xs named ys (sym (take-drop (name_end u words) words)) e
          f in
      let until = length-append a (xs ++ named) in
      let inner = length-append xs named in
      let size : length (a ++ (xs ++ named)) ≡ m + n = omega (arith, until, inner, l, g) in
      let rest_so : drop (m + n) words ≡ ys ++ left =
        ap (λ k. drop k words) (sym size)
        ∙ (ap (drop (length (a ++ (xs ++ named)))) (cut_so.1)
            ∙ drop-append (a ++ (xs ++ named)) (ys ++ left)) in
      record {
        before = before;
        marker = marker;
        between = xs;
        named = named;
        rest = ys ++ left;
        whole = cut_so.0;
        marked = mark;
        the_school = which;
        unnumbered = front_unnumbered taken a behind xs named ys e f (take-unnumbered u words);
        street_so = ap normalise_street_words (sym rest_so) ∙ s;
      }

  after_some :
      (words : List Text) (marker : ℕ) (o : Option ℕ) (street : Text)
      → street_after u words marker o ≡ some street
      → (n : ℕ) × (o ≡ some n) × (normalise_street_words (drop (marker + n) words) ≡ some street)
  after_some words marker none street h = absurd (cc)
  after_some words marker (some n) street h = (n, refl, h)

  from_marked :
      (words : List Text) (o : Option ℕ) (street : Text)
      → marker_end words ≡ o
      → marked_line u school_lossy school_core words o ≡ some street
      → IsCareOf school_lossy school_core words street
  unfolding marker_end
  from_marked words none street e h = absurd (cc)
  from_marked words (some m) street e h = elim (Bool-cases (ltb (name_end u words) m)) [
    | inl b ↦ let h' = rw b at h in absurd (cc)
    | inr b ↦
        let (n, f, g) =
          after_some words m
            (school_match_end (name_part u words m (name_end u words)) school_lossy school_core)
            street (rw b at h) in
        cut words m n street
          (marked_end u words (find_pair (codes "c") (codes "o") words) m refl e b) f g
  ]

  care_of_line-IsCareOf :
      (line street : Text)
      → care_of_line u school_lossy school_core line ≡ some street
      → IsCareOf school_lossy school_core (fold_words u line) street
  unfolding care_of_line
  care_of_line-IsCareOf line street h =
      from_marked (fold_words u line) (marker_end (fold_words u line)) street refl h

-- The keys that count towards a school come from lines of the row in which a marker stands, then the
-- school's name, as all its words or as its core and a word for a school, and no word with a digit
-- before the name's end; the street is made of what stands behind the name, and the row's postcode,
-- trimmed, is of four digits.
pub care_of_keys-IsCareOf :
    (u : Unicode) (lines : List Text) (postcode : Option Text) (name : Text) (k : AddressKey)
    → Memᴰ k (care_of_keys u lines postcode name)
    → IsPostcode postcode k.postcode
      × ((line : Text) × Memᴰ line lines
          × IsCareOf
              (fold_words u name)
              (nonempty_words (name_core u name))
              (fold_words u line)
              k.street)
unfolding care_of_keys
care_of_keys-IsCareOf u lines postcode name k m =
    let lossy = fold_words u name in
    let core = nonempty_words (name_core u name) in
    let (a, b) = sorted_keys_iff (valid_postcode postcode) (care_of_line u lossy core) lines k in
    let (e, (l, n, g)) = a m in
    (
      (IsPostcode-iff postcode k.postcode).0 e,
      (l, n, care_of_line-IsCareOf u lossy core l k.street g),
    )
