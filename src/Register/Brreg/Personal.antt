-- ===== src/Register/Brreg/Personal.antt =====
-- register/brreg.rs: which lines name a person, which a post box, and which have a number, without the
-- positions that the code looks for.
use fau_portalen.Prelude.{
  ℕ, suc, ◌+◌, ◌-◌, ◌≡◌, refl, sym, ap, ◌∙◌, Option, none, some, Bool, true, false, ◌&&◌, ◌||◌,
  List, [], ◌∷◌, any, length, take, drop, arith, Bool-cases, Option-cases, inl, inr, leb,
}
use fau_portalen.Prelude.Map.{is_some}
use fau_portalen.Text.{Text, text_eq, text_eq_iff, codes}
use fau_portalen.Register.Brreg.Words.{
  find_pair, position, rposition, later, has_digit, first_digit_index, is_v, after_v, v_after,
  v_marker, v_marker_end, care_of_end, marker_end, is_personal, is_postbox,
}

-- Two words that follow each other pass the test.
pub any_pair : (Text → Text → Bool) → List Text → Bool
any_pair p [] = false
any_pair p (v ∷ []) = false
any_pair p (v ∷ w ∷ ws) = p v w || any_pair p (w ∷ ws)

-- A word with a digit.
abbrev pub is_numbered : Text → Bool
is_numbered w = any (λ c. leb b'0' c && leb c b'9') w

-- "c" with "o" behind it; or "v" with a word behind it, in a line in which a word has a digit.
pub names_person : List Text → Bool
names_person words =
    any_pair (λ v w. text_eq v (codes "c") && text_eq w (codes "o")) words
    || (any is_numbered words && any_pair (λ v w. text_eq v (codes "v")) words)

-- A word for a post box, or "p" with "b" behind it.
pub names_box : List Text → Bool
names_box words =
    any (λ w. text_eq w (codes "postboks") || text_eq w (codes "pb") || text_eq w (codes "boks"))
      words
    || any_pair (λ v w. text_eq v (codes "p") && text_eq w (codes "b")) words

is_some-later : (o : Option ℕ) → is_some (later o) ≡ is_some o
is_some-later none = refl
is_some-later (some i) = refl

is_some-find_pair :
    (a b : Text) (words : List Text)
    → is_some (find_pair a b words) ≡ any_pair (λ v w. text_eq v a && text_eq w b) words
unfolding find_pair any_pair
is_some-find_pair a b [] = refl
is_some-find_pair a b (v ∷ []) = refl
is_some-find_pair a b (v ∷ w ∷ ws) =
    let ih = is_some-later (find_pair a b (w ∷ ws)) ∙ is_some-find_pair a b (w ∷ ws) in
    elim (Bool-cases (text_eq v a && text_eq w b)) [ inl e ↦ rw e refl | inr e ↦ rw e ih ]

is_some-position : (p : Text → Bool) (words : List Text) → is_some (position p words) ≡ any p words
unfolding position
is_some-position p [] = refl
is_some-position p (w ∷ ws) =
    let ih = is_some-later (position p ws) ∙ is_some-position p ws in
    elim (Bool-cases (p w)) [ inl e ↦ rw e refl | inr e ↦ rw e ih ]

is_some-rposition :
    (p : Text → Bool) (words : List Text) → is_some (rposition p words) ≡ any p words
unfolding rposition
is_some-rposition p [] = refl
is_some-rposition p (w ∷ ws) =
    let ih = is_some-rposition p ws in
    elim (Option-cases (rposition p ws)) [
      | inr (i, e) ↦
          let t : any p ws ≡ true = sym ih ∙ ap is_some e in rw e (sym (ground (arith, t)))
      | inl e ↦
          let t : any p ws ≡ false = sym ih ∙ ap is_some e in
          elim (Bool-cases (p w)) [ inl f ↦ rw (e, f) refl | inr f ↦ rw (e, f) (sym t) ]
    ]

-- A "v" among all words but the last.
abbrev v_before_last : List Text → Bool
v_before_last words = any_pair (λ v w. text_eq v (codes "v")) words

one_less : (n : ℕ) → suc n - 1 ≡ n
one_less n = omega arith

any-init : (words : List Text) → any is_v (take (length words - 1) words) ≡ v_before_last words
unfolding any_pair
any-init [] = refl
any-init (v ∷ []) = refl
any-init (v ∷ w ∷ ws) =
    let ih : any is_v (take (length ws) (w ∷ ws)) ≡ v_before_last (w ∷ ws) =
      ap (λ n. any is_v (take n (w ∷ ws))) (sym (one_less (length ws))) ∙ any-init (w ∷ ws) in
    ap (λ n. any is_v (take n (v ∷ w ∷ ws))) (one_less (suc (length ws))) ∙ ap (λ b. is_v v || b) ih

is_some-after_v : (n : ℕ) (o : Option ℕ) → is_some (after_v n o) ≡ is_some o
is_some-after_v n none = refl
is_some-after_v n (some i) = refl

is_some-v_after : (n : ℕ) (words : List Text) → is_some (v_after n words) ≡ v_before_last words
unfolding any_pair
is_some-v_after n [] = refl
is_some-v_after n (w ∷ ws) =
    is_some-after_v n (position is_v (take (length (w ∷ ws) - 1) (w ∷ ws)))
    ∙ (is_some-position is_v (take (length (w ∷ ws) - 1) (w ∷ ws)) ∙ any-init (w ∷ ws))

is_some-v_marker :
    (words : List Text) (n : ℕ) (o : Option ℕ)
    → is_some (v_marker words n o) ≡ (is_some o || v_before_last (drop (n + 1) words))
is_some-v_marker words n (some i) = refl
is_some-v_marker words n none = is_some-v_after n (drop (n + 1) words)

-- What the search for "v" finds from the first word with a digit.
abbrev found_at : List Text → Option ℕ → Bool
found_at words none = false
found_at words (some n) = any is_v (take n words) || v_before_last (drop (n + 1) words)

is_some-v_marker_end :
    (words : List Text) (o : Option ℕ) → is_some (v_marker_end words o) ≡ found_at words o
is_some-v_marker_end words none = refl
is_some-v_marker_end words (some n) =
    is_some-v_marker words n (rposition is_v (take n words))
    ∙ ap (λ b. b || v_before_last (drop (n + 1) words)) (is_some-rposition is_v (take n words))

numbered_no_v : (w : Text) → has_digit w ≡ true → is_v w ≡ false
numbered_no_v w h = elim (Bool-cases (is_v w)) [
  | inl e ↦
      let q = (text_eq_iff w (codes "v")).0 e in
      let h' : has_digit (codes "v") ≡ true = rw q at h in absurd (cc)
  | inr e ↦ e
]

v_before_last-∷ :
    (w x : Text) (ws : List Text) → v_before_last (w ∷ x ∷ ws) ≡ (is_v w || v_before_last (x ∷ ws))
unfolding any_pair
v_before_last-∷ w x ws = refl

v_before_last_numbered :
    (w : Text) (ws : List Text) → is_v w ≡ false → v_before_last (w ∷ ws) ≡ v_before_last ws
unfolding any_pair
v_before_last_numbered w [] e = refl
v_before_last_numbered w (x ∷ ws) e = rw e refl

-- A word before the first with a digit is one more to look at.
v_before_last_later :
    (w : Text) (ws : List Text) (i : ℕ)
    → position has_digit ws ≡ some i
    → v_before_last (w ∷ ws) ≡ (is_v w || v_before_last ws)
unfolding position
v_before_last_later w [] i e = absurd (cc)
v_before_last_later w (x ∷ ws) i e = v_before_last-∷ w x ws

found_at-position :
    (words : List Text)
    → found_at words (position has_digit words) ≡ (any has_digit words && v_before_last words)
unfolding position any_pair
found_at-position [] = refl
found_at-position (w ∷ ws) = elim (Bool-cases (has_digit w)) [
  | inl e ↦ rw e (sym (v_before_last_numbered w ws (numbered_no_v w e)))
  | inr e ↦
      let ih = found_at-position ws in
      let some_digit = is_some-position has_digit ws in
      elim (Option-cases (position has_digit ws)) [
        | inl f ↦
            let t : any has_digit ws ≡ false = sym some_digit ∙ ap is_some f in rw (e, f, t) refl
        | inr (i, f) ↦
            let t : any has_digit ws ≡ true = sym some_digit ∙ ap is_some f in
            let ih' : (any is_v (take i ws) || v_before_last (drop (i + 1) ws)) ≡ v_before_last ws =
              ap (found_at ws) (sym f) ∙ (ih ∙ rw t refl) in
            rw (e, f, t) (ground (arith, ih') ∙ sym (v_before_last_later w ws i f))
      ]
]

is_some-care_of_end :
    (words : List Text) (o : Option ℕ)
    → is_some (care_of_end words o)
      ≡ (is_some o || is_some (v_marker_end words (first_digit_index words)))
is_some-care_of_end words none = refl
is_some-care_of_end words (some i) = refl

-- The code's test for a person.
pub is_personal_lem : (words : List Text) → is_personal words ≡ names_person words
unfolding is_personal marker_end first_digit_index names_person
is_personal_lem words =
    is_some-care_of_end words (find_pair (codes "c") (codes "o") words)
    ∙ (ap (λ b. b || is_some (v_marker_end words (position has_digit words)))
          (is_some-find_pair (codes "c") (codes "o") words)
        ∙ ap (λ b. any_pair (λ v w. text_eq v (codes "c") && text_eq w (codes "o")) words || b)
            (is_some-v_marker_end words (position has_digit words) ∙ found_at-position words))

-- The code's test for a post box.
pub is_postbox_lem : (words : List Text) → is_postbox words ≡ names_box words
unfolding is_postbox names_box
is_postbox_lem words = rw (is_some-find_pair (codes "p") (codes "b") words) refl

-- The code's test for a number.
pub is_some-first_digit_index :
    (words : List Text) → is_some (first_digit_index words) ≡ any is_numbered words
unfolding first_digit_index
is_some-first_digit_index words = is_some-position has_digit words
