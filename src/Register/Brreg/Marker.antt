-- ===== src/Register/Brreg/Marker.antt =====
-- register/brreg.rs, `marker_end`: a marker before the first number of a line, and what a line in care
-- of a school is.
use mathlib.Core.List.{append_assoc}
use fau_portalen.Prelude.{
  ℕ, suc, ◌+◌, ◌≡◌, ◌⊎◌, refl, sym, ap, ◌∙◌, Option, none, some, false, List, [], ◌∷◌, ◌++◌, any,
  length, length-append, take, drop, ltb, arith, Bool-cases, inl, inr,
}
use fau_portalen.Text.{Text, Unicode, text_eq_iff, codes}
use fau_portalen.Register.Brreg.Words.{
  first_digit_index, has_digit, position, later, find_pair, is_v, rposition, care_of_end,
  v_marker_end, v_marker, v_after, after_v,
}
use fau_portalen.Register.Brreg.Street.{normalise_street_words}
use fau_portalen.Register.Brreg.{digit_or_end}
use fau_portalen.Register.Brreg.Personal.{is_numbered}
use fau_portalen.Register.Brreg.Marked.{take-append, find_pair-some, rposition-some, IsNameOf}

-- A marker: "c" and "o", or "v".
abbrev pub IsMarker : List Text → Type 0
IsMarker marker = (marker ≡ codes "c" ∷ codes "o" ∷ []) ⊎ (marker ≡ codes "v" ∷ [])

-- Words in which a marker stands, behind it the school's name, and behind that what makes the street;
-- no word up to the name's end has a digit.
pub record IsCareOf (school_lossy school_core words : List Text) (street : Text) : Type 0 where
  pub before : List Text
  pub marker : List Text
  pub between : List Text
  pub named : List Text
  pub rest : List Text
  pub whole : words ≡ (before ++ marker) ++ (between ++ (named ++ rest))
  pub marked : IsMarker marker
  pub the_school : IsNameOf school_lossy school_core named
  pub unnumbered : any is_numbered ((before ++ marker) ++ (between ++ named)) ≡ false
  pub street_so : normalise_street_words rest ≡ some street

module _ (u : Unicode) where
  abbrev pub name_end : List Text → ℕ
  name_end words = digit_or_end u words (first_digit_index words)

  digit_or_end-suc :
      (w : Text) (ws : List Text) (o : Option ℕ)
      → digit_or_end u (w ∷ ws) (later o) ≡ suc (digit_or_end u ws o)
  digit_or_end-suc w ws none = refl
  digit_or_end-suc w ws (some i) = refl

  -- Up to the name's end no word has a digit.
  pub take-unnumbered :
      (words : List Text)
      → any has_digit (take (digit_or_end u words (position has_digit words)) words) ≡ false
  unfolding position
  take-unnumbered [] = refl
  take-unnumbered (w ∷ ws) = elim (Bool-cases (has_digit w)) [
    | inl e ↦ rw e refl
    | inr e ↦
        let q = digit_or_end-suc w ws (position has_digit ws) in
        rw e (ap (λ n. any has_digit (take n (w ∷ ws))) q ∙ rw e (take-unnumbered ws))
  ]

  -- Where a marker ends before the first number, what comes up to its end.
  abbrev pub MarkedAt : ℕ → List Text → Type 0
  MarkedAt m taken =
      (before : List Text) × (marker : List Text) × (behind : List Text) × IsMarker marker
      × (taken ≡ (before ++ marker) ++ behind)
      × (length (before ++ marker) ≡ m)

  marked_pair :
      (words : List Text) (i n : ℕ)
      → find_pair (codes "c") (codes "o") words ≡ some i
      → ltb n (i + 2) ≡ false
      → MarkedAt (i + 2) (take n words)
  marked_pair words i n h b =
      let (xs, ys, e, l) = find_pair-some (codes "c") (codes "o") words i h in
      let marker : List Text = codes "c" ∷ codes "o" ∷ [] in
      let size : length (xs ++ marker) ≡ i + 2 = length-append xs marker ∙ ap (λ k. k + 2) l in
      let whole : words ≡ (xs ++ marker) ++ ys = e ∙ sym (append_assoc xs marker ys) in
      let (zs, f) = take-append n (xs ++ marker) ys (ground (arith, size, b)) in
      (xs, marker, zs, inl refl, ap (take n) whole ∙ f, size)

  marked_v :
      (words : List Text) (n m : ℕ) (o : Option ℕ)
      → rposition is_v (take n words) ≡ o
      → v_marker words n o ≡ some m
      → ltb n m ≡ false
      → MarkedAt m (take n words)
  marked_v words n m (some i) e h b =
      let (w, v, (xs, ys, f, l)) = rposition-some is_v (take n words) i e in
      let q = (text_eq_iff w (codes "v")).0 v in
      let marker : List Text = w ∷ [] in
      let z : i + 1 ≡ m = cc in
      (
        xs,
        marker,
        ys,
        inr (rw q refl),
        f ∙ sym (append_assoc xs marker ys),
        length-append xs marker ∙ (ap (λ k. k + 1) l ∙ z),
      )
  marked_v words n m none e h b = absurd (behind words n m (drop (n + 1) words) h b)
    where
      no_v : (n m : ℕ) (o : Option ℕ) → after_v n o ≡ some m → ltb n m ≡ false → ⊥
      no_v n m none h b = absurd (cc)
      no_v n m (some i) h b = let q : n + 1 + i + 1 ≡ m = cc in absurd (ground (arith, q, b))

      behind :
          (words : List Text) (n m : ℕ) (after : List Text)
          → v_after n after ≡ some m
          → ltb n m ≡ false
          → ⊥
      behind words n m [] h b = absurd (cc)
      behind words n m (w ∷ ws) h b = no_v n m _ h b

  marked_number :
      (words : List Text) (o : Option ℕ) (m : ℕ)
      → v_marker_end words o ≡ some m
      → ltb (digit_or_end u words o) m ≡ false
      → MarkedAt m (take (digit_or_end u words o) words)
  marked_number words none m h b = absurd (cc)
  marked_number words (some n) m h b = marked_v words n m (rposition is_v (take n words)) refl h b

  pub marked_end :
      (words : List Text) (o : Option ℕ) (m : ℕ)
      → find_pair (codes "c") (codes "o") words ≡ o
      → care_of_end words o ≡ some m
      → ltb (name_end words) m ≡ false
      → MarkedAt m (take (name_end words) words)
  marked_end words none m e h b = marked_number words (first_digit_index words) m h b
  marked_end words (some i) m e h b =
      let q : i + 2 ≡ m = cc in
      let b' : ltb (name_end words) (i + 2) ≡ false = rw (← q) at b in
      rw (← q) (marked_pair words i (name_end words) e b')
