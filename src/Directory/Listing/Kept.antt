-- ===== src/Directory/Listing/Kept.antt =====
-- listing.rs, `arrange`: who is listed, once each.
use Prim.Native.Nat.{Ordering}
use fau_portalen.Prelude.{
  insert_by, sort_by, is_gt, ℕ, ◌≡◌, refl, ◌∙◌, Bool, true, false, ◌&&◌, ◌||◌, not, List, [], ◌∷◌,
  map, arith, any, ◌==◌, Bool-cases, inl, inr,
}
use fau_portalen.Directory.Listing.{Person, first_people, retain_known}

-- Some id occurs twice.
unfoldable pub has_repeat : List ℕ → Bool
has_repeat [] = false
has_repeat (i ∷ is') = any (λ j. i == j) is' || has_repeat is'

abbrev pub has : ℕ → List ℕ → Bool
has i is' = any (λ j. i == j) is'

module _ {ℓ} {A : Type ℓ} (cmp : A → A → Ordering) (id_of : A → ℕ) where
  -- Sorting keeps the ids, in another order.
  has-insert_by :
      (i : ℕ) (a : A) (as' : List A)
      → has i (map id_of (insert_by cmp a as')) ≡ (i == id_of a || has i (map id_of as'))
  unfolding insert_by
  has-insert_by i a [] = refl
  has-insert_by i a (b ∷ bs) = elim (Bool-cases (is_gt (cmp a b))) [
    | inl e ↦ rw e (ground (arith, has-insert_by i a bs))
    | inr e ↦ rw e refl
  ]

  pub has-sort_by :
      (i : ℕ) (as' : List A) → has i (map id_of (sort_by cmp as')) ≡ has i (map id_of as')
  unfolding sort_by
  has-sort_by i [] = refl
  has-sort_by i (a ∷ as') = has-insert_by i a (sort_by cmp as') ∙ rw (has-sort_by i as') refl

  has_repeat-insert_by :
      (a : A) (as' : List A)
      → has_repeat (map id_of (insert_by cmp a as'))
        ≡ (has (id_of a) (map id_of as') || has_repeat (map id_of as'))
  unfolding insert_by has_repeat
  has_repeat-insert_by a [] = refl
  has_repeat-insert_by a (b ∷ bs) = elim (Bool-cases (is_gt (cmp a b))) [
    | inl e ↦ rw e (ground (arith, has_repeat-insert_by a bs, has-insert_by (id_of b) a bs))
    | inr e ↦ rw e refl
  ]

  pub has_repeat-sort_by :
      (as' : List A) → has_repeat (map id_of (sort_by cmp as')) ≡ has_repeat (map id_of as')
  unfolding sort_by has_repeat
  has_repeat-sort_by [] = refl
  has_repeat-sort_by (a ∷ as') =
      has_repeat-insert_by a (sort_by cmp as')
      ∙ rw (has-sort_by (id_of a) as') (rw (has_repeat-sort_by as') refl)

==_refl : (i : ℕ) → (i == i) ≡ true
==_refl i = ground arith

-- An id that `retain` keeps was given, is known, and was not kept before.
pub has-retain_known :
    (i : ℕ) (known seen ms : List ℕ)
    → has i (retain_known known seen ms) ≡ (has i ms && (has i known && not (has i seen)))
unfolding retain_known
has-retain_known i known seen [] = refl
has-retain_known i known seen (m ∷ ms) =
    let ih = has-retain_known i known (m ∷ seen) ms in
    let ih' = has-retain_known i known seen ms in
    elim (Bool-cases (has m known && not (has m seen))) [
      | inl e ↦ elim (Bool-cases (i == m)) [
        | inl q ↦
            let p : i ≡ m = ground arith in
            let e' : (has i known && not (has i seen)) ≡ true = rw p e in
            rw e (ground (arith, ih, e'))
        | inr q ↦ rw e (ground (arith, ih))
      ]
      | inr e ↦ elim (Bool-cases (i == m)) [
        | inl q ↦
            let p : i ≡ m = ground arith in
            let e' : (has i known && not (has i seen)) ≡ false = rw p e in
            rw e (ground (arith, ih', e'))
        | inr q ↦ rw e (ground (arith, ih'))
      ]
    ]

pub has_repeat-retain_known :
    (known seen ms : List ℕ) → has_repeat (retain_known known seen ms) ≡ false
unfolding retain_known has_repeat
has_repeat-retain_known known seen [] = refl
has_repeat-retain_known known seen (m ∷ ms) =
    let ih = has_repeat-retain_known known (m ∷ seen) ms in
    let ih' = has_repeat-retain_known known seen ms in
    let no = has-retain_known m known (m ∷ seen) ms in
    elim (Bool-cases (has m known && not (has m seen))) [
      | inl e ↦ rw e (ground (arith, ih, no, ==_refl m))
      | inr e ↦ rw e ih'
    ]

abbrev pub ids_of : List Person → List ℕ
ids_of people = map (λ (p : Person). p.membership_id) people

pub has-first_people :
    (i : ℕ) (seen : List ℕ) (ps : List Person)
    → has i (ids_of (first_people seen ps)) ≡ (has i (ids_of ps) && not (has i seen))
unfolding first_people
has-first_people i seen [] = refl
has-first_people i seen (p ∷ ps) =
    let ih = has-first_people i (p.membership_id ∷ seen) ps in
    let ih' = has-first_people i seen ps in
    elim (Bool-cases (has p.membership_id seen)) [
      | inl e ↦ elim (Bool-cases (i == p.membership_id)) [
        | inl q ↦
            let r : i ≡ p.membership_id = ground arith in
            let e' : has i seen ≡ true = rw r e in rw e (ground (arith, ih', e'))
        | inr q ↦ rw e (ground (arith, ih'))
      ]
      | inr e ↦ elim (Bool-cases (i == p.membership_id)) [
        | inl q ↦
            let r : i ≡ p.membership_id = ground arith in
            let e' : has i seen ≡ false = rw r e in rw e (ground (arith, ih, e'))
        | inr q ↦ rw e (ground (arith, ih))
      ]
    ]

pub has_repeat-first_people :
    (seen : List ℕ) (ps : List Person) → has_repeat (ids_of (first_people seen ps)) ≡ false
unfolding first_people has_repeat
has_repeat-first_people seen [] = refl
has_repeat-first_people seen (p ∷ ps) =
    let ih = has_repeat-first_people (p.membership_id ∷ seen) ps in
    let ih' = has_repeat-first_people seen ps in
    let no = has-first_people p.membership_id (p.membership_id ∷ seen) ps in
    elim (Bool-cases (has p.membership_id seen)) [
      | inl e ↦ rw e ih'
      | inr e ↦ rw e (ground (arith, ih, no, ==_refl p.membership_id))
    ]
