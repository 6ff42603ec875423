-- ===== src/Register/Sync/Schools/Successors.antt =====
-- schools.rs, `place_all`: the successors of closing schools.
use fau_portalen.Prelude.{
  ℕ, suc, zero, ◌-◌, ◌<◌, ◌≡◌, refl, sym, ap, ◌∙◌, none, some, true, false, List, [], ◌∷◌, map,
  arith, get_elem?, ◌==◌, Bool-cases, inl, inr, compare, is_eq,
}
use fau_portalen.Prelude.Map
use fau_portalen.Prelude.Map.{is_eq-≡}
use fau_portalen.Text.{compare-IsKeyed}
use fau_portalen.Register.Sync.Types
use fau_portalen.Register.Sync.Schools.Data.{School, Municipality, Closing, Placement, successor}
use fau_portalen.Register.Sync.Schools.Place.{Placing, claim, change_at}
use fau_portalen.Register.Sync.Schools.Sorted.{school_of_closing}

change_at-suc :
    {A : Type 0} (n : ℕ) (f : A → A) (a : A) (as' : List A)
    → change_at (suc n) f (a ∷ as') ≡ a ∷ change_at n f as'
unfolding change_at
change_at-suc n f a as' =
    let e : (suc n == 0) ≡ false = ground arith in
    let q : suc n - 1 ≡ n = omega arith in rw (e, q) refl

get-change_at_other :
    {A : Type 0} (n : ℕ) (f : A → A) (as' : List A) (k : ℕ)
    → (k == n) ≡ false
    → get_elem? (change_at n f as') k ≡ get_elem? as' k
unfolding change_at
get-change_at_other n f [] k h = refl
get-change_at_other zero f (a ∷ as') zero h = absurd (cc)
get-change_at_other zero f (a ∷ as') (suc k) h = refl
get-change_at_other (suc n) f (a ∷ as') zero h = rw (change_at-suc n f a as') refl
get-change_at_other (suc n) f (a ∷ as') (suc k) h =
    rw (change_at-suc n f a as') (get-change_at_other n f as' k (ground arith))

get-change_at_same :
    {A : Type 0} (n : ℕ) (f : A → A) (as' : List A) (b : A)
    → get_elem? (change_at n f as') n ≡ some b
    → (a : A) × (get_elem? as' n ≡ some a) × (b ≡ f a)
unfolding change_at
get-change_at_same n f [] b h = absurd (cc)
get-change_at_same zero f (a ∷ as') b h = (a, refl, cc)
get-change_at_same (suc n) f (a ∷ as') b h =
    get-change_at_same n f as' b (rw (change_at-suc n f a as') at h)

get_elem?-map :
    {A B : Type 0} (f : A → B) (as' : List A) (k : ℕ) (a : A)
    → get_elem? as' k ≡ some a
    → get_elem? (map f as') k ≡ some (f a)
get_elem?-map f [] k a h = absurd (cc)
get_elem?-map f (b ∷ as') zero a h = ap some (cc)
get_elem?-map f (b ∷ as') (suc k) a h = get_elem?-map f as' k a h

-- A closing with a successor closes as merged; the successor is the number of one of `n` candidates,
-- and that candidate takes the closing school's slug.
abbrev pub IsLink : ℕ → Placing → Closing → Municipality → Type 0
IsLink n p c r =
    (i : ℕ) × (r ≡ Types.Ref.new i)
    × (i < n)
    × (c.reason ≡ Types.ClosureReason.merged)
    × (Map.get compare i p.placement ≡ some (successor c.school.slug))

-- Every successor is linked so, and no two closings have one successor.
pub record IsLinked (n : ℕ) (p : Placing) : Type 0 where
  pub linked :
      (a : ℕ) (c : Closing) (r : Municipality)
      → get_elem? p.closings a ≡ some c
      → c.successor ≡ some r
      → IsLink n p c r
  pub once :
      (a b : ℕ) (c d : Closing) (r : Municipality)
      → get_elem? p.closings a ≡ some c
      → get_elem? p.closings b ≡ some d
      → c.successor ≡ some r
      → d.successor ≡ some r
      → a ≡ b

-- A placement for an index that had none keeps those that there were.
insert-kept :
    (p : Placing) (k i : ℕ) (v w : Placement)
    → Map.get compare k p.placement ≡ none
    → Map.get compare i p.placement ≡ some w
    → Map.get compare i (Map.insert compare k v p.placement) ≡ some w
insert-kept p k i v w h e = elim (Bool-cases (is_eq (compare i k))) [
  | inl f ↦
      let q = compare-IsKeyed.same i k (is_eq-≡ (compare i k) f) in
      absurd (let e' = rw q at e in cc)
  | inr f ↦ Map.get-insert compare compare-IsKeyed i k v p.placement ∙ rw f e
]

kept-IsLink :
    (n : ℕ) (p q : Placing) (k : ℕ) (v : Placement) (c : Closing) (r : Municipality)
    → Map.get compare k p.placement ≡ none
    → q.placement ≡ Map.insert compare k v p.placement
    → IsLink n p c r
    → IsLink n q c r
kept-IsLink n p q k v c r h e (i, a, b, d, f) = (i, a, b, d, rw e (insert-kept p k i v _ h f))

pub keeps-IsLinked :
    (n : ℕ) (p q : Placing) (k : ℕ) (v : Placement)
    → Map.get compare k p.placement ≡ none
    → q.placement ≡ Map.insert compare k v p.placement
    → q.closings ≡ p.closings
    → IsLinked n p
    → IsLinked n q
keeps-IsLinked n p q k v h e f l = record {
  linked = λ a c r x y. kept-IsLink n p q k v c r h e (l.linked a c r (rw f at x) y);
  once = λ a b c d r x y. l.once a b c d r (rw f at x) (rw f at y);
}

-- A claim links the closing at its index, and no other.
module _ (n : ℕ) (p q : Placing) (j k : ℕ) (s : School)
    (free : Map.get compare k p.placement ≡ none) (below : k < n)
    (stands : get_elem? (map school_of_closing p.closings) j ≡ some s)
    (same : q.closings ≡ change_at j (claim k) p.closings)
    (placed : q.placement ≡ Map.insert compare k (successor s.slug) p.placement)
    (l : IsLinked n p) where
  claimed :
      (c : Closing)
      → get_elem? q.closings j ≡ some c
      → (c.successor ≡ some (Types.Ref.new k))
        × (c.reason ≡ Types.ClosureReason.merged)
        × (c.school ≡ s)
  claimed c h =
      let (c0, e, f) = get-change_at_same j (claim k) p.closings c (rw same at h) in
      let g = get_elem?-map school_of_closing p.closings j c0 e in
      let t : c0.school ≡ s = cc in (rw f refl, rw f refl, rw f t)

  unclaimed :
      (a : ℕ) (c : Closing)
      → (a == j) ≡ false
      → get_elem? q.closings a ≡ some c
      → get_elem? p.closings a ≡ some c
  unclaimed a c e h = sym (get-change_at_other j (claim k) p.closings a e) ∙ (rw same at h)

  -- An older link is to another candidate.
  no_older :
      (a : ℕ) (c : Closing)
      → get_elem? p.closings a ≡ some c
      → ¬ (c.successor ≡ some (Types.Ref.new k))
  no_older a c h e =
      let (i, x, b, d, f) = l.linked a c (Types.Ref.new k) h e in
      let t : k ≡ i = cc in absurd (let f' = rw (← t) at f in cc)

  claim-IsLink :
      (c : Closing) (r : Municipality)
      → get_elem? q.closings j ≡ some c
      → c.successor ≡ some r
      → IsLink n q c r
  claim-IsLink c r h e =
      let (x, y, z) = claimed c h in
      let t : r ≡ Types.Ref.new k = cc in
      (k, t, below, y, rw (placed, z) (Map.get-insert_self compare compare-IsKeyed k _ p.placement))

  claim-once :
      (a b : ℕ) (c d : Closing) (r : Municipality)
      → (a == j) ≡ true
      → (b == j) ≡ false
      → get_elem? q.closings a ≡ some c
      → get_elem? q.closings b ≡ some d
      → c.successor ≡ some r
      → ¬ (d.successor ≡ some r)
  claim-once a b c d r e f x y u v =
      let t : a ≡ j = ground arith in
      let (z, _, _) = claimed c (rw t at x) in no_older b d (unclaimed b d f y) (v ∙ sym u ∙ z)

  pub claim-IsLinked : IsLinked n q
  claim-IsLinked = record {
    linked = λ a c r x y. elim (Bool-cases (a == j)) [
      | inl e ↦ let t : a ≡ j = ground arith in claim-IsLink c r (rw t at x) y
      | inr e ↦ kept-IsLink n p q k _ c r free placed (l.linked a c r (unclaimed a c e x) y)
    ];
    once = λ a b c d r x y u v. elim (Bool-cases (a == j)) [
      | inl e ↦ elim (Bool-cases (b == j)) [
        | inl f ↦ ground arith
        | inr f ↦ absurd (claim-once a b c d r e f x y u v)
      ]
      | inr e ↦ elim (Bool-cases (b == j)) [
        | inl f ↦ absurd (claim-once b a d c r f e y x v u)
        | inr f ↦ l.once a b c d r (unclaimed a c e x) (unclaimed b d f y) u v
      ]
    ];
  }
