-- ===== src/Register/Brreg/Marked.antt =====
-- register/brreg.rs: what the positions of a marker and of a name cut a line into.
use mathlib.Core.List.{append_assoc}
use fau_portalen.Prelude.{
  ℕ, suc, zero, ◌+◌, ◌≤◌, ◌≡◌, ◌⊎◌, refl, sym, ap, ◌∙◌, Option, none, some, Bool, true, false, ◌&&◌,
  ◌||◌, List, [], ◌∷◌, ◌++◌, length, length-append, take, drop, is_empty, ltb, arith, Bool-cases,
  Option-cases, inl, inr,
}
use fau_portalen.Text.{Text, text_eq, text_eq_iff}
use fau_portalen.Register.Brreg.Words.{
  find_pair, rposition, later, starts_with, sequence_start, end_of, find_sequence, is_school_word,
}
use fau_portalen.Register.Brreg.{core_match, next_school, school_match_end}

module _ {ℓ} {A : Type ℓ} where
  pub drop-append : (xs ys : List A) → drop (length xs) (xs ++ ys) ≡ ys
  drop-append [] ys = refl
  drop-append (x ∷ xs) ys = drop-append xs ys

  pub take-drop : (n : ℕ) (xs : List A) → take n xs ++ drop n xs ≡ xs
  take-drop zero xs = refl
  take-drop (suc n) [] = refl
  take-drop (suc n) (x ∷ xs) = ap (λ r. x ∷ r) (take-drop n xs)

  -- A beginning is within what is taken, if that is as long.
  pub take-append :
      (n : ℕ) (xs ys : List A) → length xs ≤ n → (zs : List A) × (take n (xs ++ ys) ≡ xs ++ zs)
  take-append n [] ys h = (take n ys, refl)
  take-append zero (x ∷ xs) ys h = absurd (omega arith)
  take-append (suc n) (x ∷ xs) ys h =
      let (zs, e) = take-append n xs ys (omega arith) in (zs, ap (λ r. x ∷ r) e)

later-some : (o : Option ℕ) (i : ℕ) → later o ≡ some i → (j : ℕ) × (o ≡ some j) × (i ≡ suc j)
later-some none i h = absurd (cc)
later-some (some j) i h = (j, refl, cc)

-- A list that is cut at a position into what is before, a part, and what is behind.
abbrev pub CutAt : ℕ → List Text → List Text → Type 0
CutAt i part words =
    (xs : List Text) × (ys : List Text) × (words ≡ xs ++ (part ++ ys)) × (length xs ≡ i)

cut-∷ :
    (w : Text) (ws part : List Text) (i j : ℕ) → i ≡ suc j → CutAt j part ws → CutAt i part (w ∷ ws)
cut-∷ w ws part i j e (xs, ys, f, g) = (w ∷ xs, ys, ap (λ r. w ∷ r) f, ap (λ n. suc n) g ∙ sym e)

pub find_pair-some :
    (a b : Text) (words : List Text) (i : ℕ)
    → find_pair a b words ≡ some i
    → CutAt i (a ∷ b ∷ []) words
unfolding find_pair
find_pair-some a b [] i h = absurd (cc)
find_pair-some a b (v ∷ []) i h = absurd (cc)
find_pair-some a b (v ∷ w ∷ ws) i h = elim (Bool-cases (text_eq v a && text_eq w b)) [
  | inl e ↦
      let p = (text_eq_iff v a).0 (ground arith) in
      let q = (text_eq_iff w b).0 (ground arith) in
      let h' : some 0 ≡ some i = rw e at h in let z : 0 ≡ i = cc in ([], ws, rw (p, q) refl, z)
  | inr e ↦
      let (j, f, g) = later-some (find_pair a b (w ∷ ws)) i (rw e at h) in
      cut-∷ v (w ∷ ws) (a ∷ b ∷ []) i j g (find_pair-some a b (w ∷ ws) j f)
]

pub rposition-some :
    (p : Text → Bool) (words : List Text) (i : ℕ)
    → rposition p words ≡ some i
    → (w : Text) × (p w ≡ true) × CutAt i (w ∷ []) words
unfolding rposition
rposition-some p [] i h = absurd (cc)
rposition-some p (w ∷ ws) i h = elim (Option-cases (rposition p ws)) [
  | inr (j, e) ↦
      let h' : some (suc j) ≡ some i = rw e at h in
      let z : i ≡ suc j = cc in
      let (v, f, c) = rposition-some p ws j e in (v, f, cut-∷ w ws (v ∷ []) i j z c)
  | inl e ↦ elim (Bool-cases (p w)) [
    | inl f ↦
        let h' : some 0 ≡ some i = rw (e, f) at h in let z : 0 ≡ i = cc in (w, f, ([], ws, refl, z))
    | inr f ↦ let h' : none ≡ some i = rw (e, f) at h in absurd (cc)
  ]
]

starts_with-some :
    (needle words : List Text)
    → starts_with needle words ≡ true
    → (ys : List Text) × (words ≡ needle ++ ys)
starts_with-some [] words h = (words, refl)
starts_with-some (n ∷ ns) [] h = absurd (cc)
starts_with-some (n ∷ ns) (w ∷ ws) h =
    let q = (text_eq_iff w n).0 (ground arith) in
    let (ys, e) = starts_with-some ns ws (ground arith) in (ys, rw (q, e) refl)

sequence_start-some :
    (needle words : List Text) (i : ℕ) → sequence_start needle words ≡ some i → CutAt i needle words
unfolding sequence_start
sequence_start-some needle [] i h = absurd (cc)
sequence_start-some needle (w ∷ ws) i h = elim (Bool-cases (starts_with needle (w ∷ ws))) [
  | inl e ↦
      let h' : some 0 ≡ some i = rw e at h in
      let z : 0 ≡ i = cc in let (ys, f) = starts_with-some needle (w ∷ ws) e in ([], ys, f, z)
  | inr e ↦
      let (j, f, g) = later-some (sequence_start needle ws) i (rw e at h) in
      cut-∷ w ws needle i j g (sequence_start-some needle ws j f)
]

-- A list cut at the end of a part.
abbrev pub EndsAt : ℕ → List Text → List Text → Type 0
EndsAt n part words =
    (xs : List Text) × (ys : List Text) × (words ≡ xs ++ (part ++ ys))
    × (length xs + length part ≡ n)

end_of-some :
    (needle words : List Text) (o : Option ℕ) (n : ℕ)
    → sequence_start needle words ≡ o
    → end_of needle o ≡ some n
    → EndsAt n needle words
end_of-some needle words none n e h = absurd (cc)
end_of-some needle words (some i) n e h =
    let (xs, ys, f, g) = sequence_start-some needle words i e in
    let q : i + length needle ≡ n = cc in (xs, ys, f, rw g q)

find_sequence-some :
    (words needle : List Text) (n : ℕ)
    → find_sequence words needle ≡ some n
    → (is_empty needle ≡ false) × EndsAt n needle words
unfolding find_sequence
find_sequence-some words needle n h =
    elim (Bool-cases (is_empty needle || ltb (length words) (length needle))) [
      | inl e ↦ let h' : none ≡ some n = rw e at h in absurd (cc)
      | inr e ↦
          (ground arith, end_of-some needle words (sequence_start needle words) n refl (rw e at h))
    ]

-- The name of a school: all its words, or those of its core and a word for a school.
abbrev pub IsNameOf : List Text → List Text → List Text → Type 0
IsNameOf school_lossy school_core named =
    ((named ≡ school_lossy) × (is_empty school_lossy ≡ false))
    ⊎ ((is_empty school_core ≡ false)
        × ((w : Text) × (is_school_word w ≡ true) × (named ≡ school_core ++ (w ∷ []))))

next_school-some :
    (k : ℕ) (ws : List Text) (n : ℕ)
    → next_school k ws ≡ some n
    → (w : Text) × (rest : List Text) × (ws ≡ w ∷ rest) × (is_school_word w ≡ true) × (n ≡ k + 1)
next_school-some k [] n h = absurd (cc)
next_school-some k (w ∷ rest) n h = elim (Bool-cases (is_school_word w)) [
  | inl e ↦ let h' : some (k + 1) ≡ some n = rw e at h in (w, rest, refl, e, cc)
  | inr e ↦ let h' : none ≡ some n = rw e at h in absurd (cc)
]

core_match-some :
    (words core : List Text) (o : Option ℕ) (n : ℕ)
    → find_sequence words core ≡ o
    → core_match words o ≡ some n
    → (w : Text) × (is_school_word w ≡ true)
      × (is_empty core ≡ false)
      × EndsAt n (core ++ (w ∷ [])) words
core_match-some words core none n e h = absurd (cc)
core_match-some words core (some k) n e h =
    let (filled, (xs, ys, f, g)) = find_sequence-some words core k e in
    let (w, rest, q, s, r) = next_school-some k (drop k words) n h in
    let split : drop k words ≡ ys =
      ap (drop k) (f ∙ sym (append_assoc xs core ys))
      ∙ (ap (λ m. drop m ((xs ++ core) ++ ys)) (sym g ∙ sym (length-append xs core))
          ∙ drop-append (xs ++ core) ys) in
    let tail : ys ≡ w ∷ rest = sym split ∙ q in
    let more = length-append core (w ∷ []) in
    (
      w,
      s,
      filled,
      (
        xs,
        rest,
        f ∙ ap (λ t. xs ++ t) (ap (λ t. core ++ t) tail ∙ sym (append_assoc core (w ∷ []) rest)),
        omega (arith, more, g, r),
      ),
    )

-- What the match of a school's name found.
pub school_match_end-some :
    (words lossy core : List Text) (n : ℕ)
    → school_match_end words lossy core ≡ some n
    → (named : List Text) × IsNameOf lossy core named × EndsAt n named words
unfolding school_match_end
school_match_end-some words lossy core n h = elim (Option-cases (find_sequence words lossy)) [
  | inr (m, e) ↦
      let h' : some m ≡ some n = rw (e, school_match_end) at h in
      let q : m ≡ n = cc in
      let (filled, c) = find_sequence-some words lossy n (e ∙ ap some q) in
      (lossy, inl (refl, filled), c)
  | inl e ↦
      let (w, s, filled, c) =
        core_match-some words core (find_sequence words core) n refl
          (rw (e, school_match_end) at h) in
      (core ++ (w ∷ []), inr (filled, (w, s, refl)), c)
]
