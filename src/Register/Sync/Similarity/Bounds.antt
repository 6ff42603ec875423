-- ===== src/Register/Sync/Similarity/Bounds.antt =====
-- similarity.rs: the counts of a similarity.
use fau_portalen.Prelude.{
  suc, ◌+◌, ◌≤◌, ◌≡◌, refl, sym, ap, ◌∙◌, Bool, true, false, not, ◌||◌, List, [], ◌∷◌, ◌++◌, filter,
  is_empty, length, arith, Bool-cases, either_way, inl, inr,
}
use fau_portalen.Text.{Text, text_eq, text_eq_iff, split}
use fau_portalen.Register.Search.{space}
use fau_portalen.Register.Sync.Similarity.{
  windows, has_element, add_all, trigrams_from, trigrams, common_count, union_count,
}

-- A list without repeats.
unfoldable pub IsSetOf : List Text → Type 0
IsSetOf [] = Unit
IsSetOf (t ∷ ts) = (has_element t ts ≡ false) × IsSetOf ts

add_all-IsSetOf : (set ws : List Text) → IsSetOf set → IsSetOf (add_all set ws)
unfolding add_all IsSetOf
add_all-IsSetOf set [] h = h
add_all-IsSetOf set (w ∷ ws) h = elim (Bool-cases (has_element w set)) [
  | inl e ↦ rw e (add_all-IsSetOf set ws h)
  | inr e ↦ rw e (add_all-IsSetOf (w ∷ set) ws (e, h))
]

trigrams_from-IsSetOf : (set words : List Text) → IsSetOf set → IsSetOf (trigrams_from set words)
unfolding trigrams_from
trigrams_from-IsSetOf set [] h = h
trigrams_from-IsSetOf set (w ∷ ws) h =
    trigrams_from-IsSetOf (add_all set (windows (space ∷ space ∷ (w ++ (space ∷ []))))) ws
      (add_all-IsSetOf set (windows (space ∷ space ∷ (w ++ (space ∷ [])))) h)

pub trigrams-IsSetOf : (query : Text) → IsSetOf (trigrams query)
unfolding trigrams IsSetOf
trigrams-IsSetOf query =
    trigrams_from-IsSetOf [] (filter (λ w. not (is_empty w)) (split space query)) _

-- The list without the elements equal to one.
abbrev others : Text → List Text → List Text
others t ts = filter (λ s. not (text_eq t s)) ts

length-others :
    (t : Text) (ts : List Text) → has_element t ts ≡ true → suc (length (others t ts)) ≤ length ts
length-others t [] h = absurd (cc)
length-others t (s ∷ ts) h = elim (Bool-cases (text_eq t s)) [
  | inl e ↦ rw e (omega (arith, length-filter ts))
  | inr e ↦ rw e (omega (arith, length-others t ts (rw e at h)))
]
  where
    length-filter : (us : List Text) → length (others t us) ≤ length us
    length-filter [] = omega arith
    length-filter (u ∷ us) =
        either_way (λ (l : List Text). length l ≤ suc (length us)) (not (text_eq t u))
          (λ x. omega (arith, length-filter us)) (λ x. omega (arith, length-filter us))

-- An element other than `t` stands among the others if it stands in the list.
others-element :
    (t s : Text) (ts : List Text)
    → text_eq t s ≡ false
    → has_element s (others t ts) ≡ has_element s ts
others-element t s [] e = refl
others-element t s (u ∷ ts) e = elim (Bool-cases (text_eq t u)) [
  | inl f ↦ rw (f, unlike t s u e f) (others-element t s ts e)
  | inr f ↦ rw f (ap (λ b. text_eq s u || b) (others-element t s ts e))
]
  where
    unlike : (t s u : Text) → text_eq t s ≡ false → text_eq t u ≡ true → text_eq s u ≡ false
    unlike t s u e f = elim (Bool-cases (text_eq s u)) [
      | inr g ↦ g
      | inl g ↦
          let p = (text_eq_iff t u).0 f in
          let q = (text_eq_iff s u).0 g in let r = (text_eq_iff t s).1 (p ∙ sym q) in absurd (cc)
    ]

filter-others :
    (t : Text) (ta tb : List Text)
    → has_element t ta ≡ false
    → filter (λ s. has_element s tb) ta ≡ filter (λ s. has_element s (others t tb)) ta
filter-others t [] tb h = refl
filter-others t (s ∷ ta) tb h = elim (Bool-cases (text_eq t s)) [
  | inl e ↦ let h' = rw e at h in absurd (cc)
  | inr e ↦
      let ih = filter-others t ta tb (rw e at h) in
      rw (others-element t s tb e) (elim (Bool-cases (has_element s tb)) [
        | inl f ↦ rw f (ap (λ l. s ∷ l) ih)
        | inr f ↦ rw f ih
      ])
]

common_le :
    (ta tb : List Text) → IsSetOf ta → length (filter (λ s. has_element s tb) ta) ≤ length tb
unfolding IsSetOf
common_le [] tb h = omega arith
common_le (t ∷ ta) tb h = elim (Bool-cases (has_element t tb)) [
  | inl e ↦
      let ih = common_le ta (others t tb) h.1 in
      let q = ap (λ (l : List Text). length l) (filter-others t ta tb h.0) in
      rw e (omega (arith, ih, q, length-others t tb e))
  | inr e ↦ rw e (common_le ta tb h.1)
]

length-filter_le : (p : Text → Bool) (ts : List Text) → length (filter p ts) ≤ length ts
length-filter_le p [] = omega arith
length-filter_le p (t ∷ ts) =
    either_way (λ (l : List Text). length l ≤ suc (length ts)) (p t)
      (λ h. omega (arith, length-filter_le p ts)) (λ h. omega (arith, length-filter_le p ts))

-- The trigrams that two names share are no more than those of either name; so the subtraction in the
-- union does not go below zero, and the quotient is at most one.
pub union_count_bounds :
    (a b : Text)
    → let ta = trigrams a in
      let tb = trigrams b in
      (common_count ta tb ≤ length ta)
      × (common_count ta tb ≤ length tb)
      × (union_count ta tb + common_count ta tb ≡ length ta + length tb)
      × (common_count ta tb ≤ union_count ta tb)
unfolding common_count union_count
union_count_bounds a b =
    let x = length-filter_le (λ t. has_element t (trigrams b)) (trigrams a) in
    let y = common_le (trigrams a) (trigrams b) (trigrams-IsSetOf a) in
    (x, y, omega (arith, x, y), omega (arith, x, y))
