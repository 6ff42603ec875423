-- ===== src/Prelude/Map.antt =====
-- `BTreeMap` as the association list of its entries in the order of their keys.
use Prim.Native.Nat.{Ordering, suc, ◌+◌, ◌≤◌}
use mathlib.Core.Path.{◌≡◌, refl, sym, ap, ◌∙◌}
use mathlib.Core.Logic.{◌⊎◌, inl, inr}
use mathlib.Core.Bool.{Bool, true, false}
use mathlib.Core.Option.{Option, none, some}
use mathlib.Core.List.{List, [], ◌∷◌, Memᴰ}
use native.Mathlib.Omega.{arith}
use fau_portalen.Prelude.Tests.{if◌then◌else◌, Bool-cases}
use fau_portalen.Prelude.Lists.{length}
use fau_portalen.Prelude.Sorting.{is_eq}

Ordering-cases : (o : Ordering) → (o ≡ Ordering.lt) ⊎ ((o ≡ Ordering.eq) ⊎ (o ≡ Ordering.gt))
Ordering-cases Ordering.lt = inl refl
Ordering-cases Ordering.eq = inr (inl refl)
Ordering-cases Ordering.gt = inr (inr refl)

pub is_eq-≡ : (o : Ordering) → is_eq o ≡ true → o ≡ Ordering.eq
is_eq-≡ Ordering.eq h = refl
is_eq-≡ Ordering.lt h = absurd (cc)
is_eq-≡ Ordering.gt h = absurd (cc)

-- The keys' comparison answers `eq` for equal keys alone.
pub record IsKeyed {ℓ} {K : Type ℓ} (cmp : K → K → Ordering) : Type ℓ where
  pub same : (k j : K) → cmp k j ≡ Ordering.eq → k ≡ j
  pub self : (k : K) → cmp k k ≡ Ordering.eq

not_both {ℓ} :
    {K : Type ℓ} (cmp : K → K → Ordering) (keyed : IsKeyed cmp) (j k i : K)
    → is_eq (cmp j k) ≡ true
    → cmp k i ≡ Ordering.gt
    → is_eq (cmp j i) ≡ false
not_both cmp keyed j k i f e = let q = keyed.same j k (is_eq-≡ (cmp j k) f) in rw (q, e) refl

abbrev pub pick {ℓ} : {A : Type ℓ} → Ordering → A → A → A → A
pick Ordering.lt before same after = before
pick Ordering.eq before same after = same
pick Ordering.gt before same after = after

abbrev pub is_some {ℓ} : {A : Type ℓ} → Option A → Bool
is_some none = false
is_some (some a) = true

module _ {ℓ κ} {K : Type ℓ} {V : Type κ} (cmp : K → K → Ordering) where
  unfoldable pub get : K → List (K × V) → Option V
  get k [] = none
  get k ((j, v) ∷ m) = let later = get k m in if is_eq (cmp k j) then some v else later

  unfoldable pub insert : K → V → List (K × V) → List (K × V)
  insert k v [] = (k, v) ∷ []
  insert k v ((j, w) ∷ m) =
      pick (cmp k j) ((k, v) ∷ (j, w) ∷ m) ((k, v) ∷ m) ((j, w) ∷ insert k v m)

  unfoldable pub remove : K → List (K × V) → List (K × V)
  remove k [] = []
  remove k ((j, w) ∷ m) = let rest = remove k m in if is_eq (cmp k j) then rest else (j, w) ∷ rest

  abbrev pub has_key : K → List (K × V) → Bool
  has_key k m = is_some (get k m)

  abbrev pub keys : List (K × V) → List K
  keys [] = []
  keys ((k, v) ∷ m) = k ∷ keys m

  pub length-keys : (m : List (K × V)) → length (keys m) ≡ length m
  length-keys [] = refl
  length-keys ((k, v) ∷ m) = ap (λ n. suc n) (length-keys m)

  pub length-insert : (k : K) (v : V) (m : List (K × V)) → length (insert k v m) ≤ length m + 1
  unfolding insert
  length-insert k v [] = omega arith
  length-insert k v ((j, w) ∷ m) = elim (Ordering-cases (cmp k j)) [
    | inl e ↦ rw e (omega arith)
    | inr (inl e) ↦ rw e (omega arith)
    | inr (inr e) ↦ rw e (omega (arith, length-insert k v m))
  ]

  pub length-remove : (k : K) (m : List (K × V)) → length (remove k m) ≤ length m
  unfolding remove
  length-remove k [] = omega arith
  length-remove k ((j, w) ∷ m) = elim (Bool-cases (is_eq (cmp k j))) [
    | inl e ↦ rw e (omega (arith, length-remove k m))
    | inr e ↦ rw e (omega (arith, length-remove k m))
  ]

  module _ (keyed : IsKeyed cmp) where
    pub get-insert :
        (j k : K) (v : V) (m : List (K × V))
        → get j (insert k v m) ≡ (if is_eq (cmp j k) then some v else get j m)
    unfolding get insert
    get-insert j k v [] = refl
    get-insert j k v ((i, w) ∷ m) = elim (Ordering-cases (cmp k i)) [
      | inl e ↦ rw e refl
      | inr (inl e) ↦
          let q = keyed.same k i e in
          elim (Bool-cases (is_eq (cmp j k))) [
            | inl f ↦ rw (e, f) refl
            | inr f ↦ let f' : is_eq (cmp j i) ≡ false = rw (← q) f in rw (e, f, f') refl
          ]
      | inr (inr e) ↦
          let ih = get-insert j k v m in
          elim (Bool-cases (is_eq (cmp j k))) [
            | inl f ↦
                let n : is_eq (cmp j i) ≡ false = not_both cmp keyed j k i f e in
                rw (e, n) (ih ∙ rw f refl)
            | inr f ↦ rw (e, f) (rw (ih, f) refl)
          ]
    ]

    pub get-remove :
        (j k : K) (m : List (K × V))
        → get j (remove k m) ≡ (if is_eq (cmp j k) then none else get j m)
    unfolding get remove
    get-remove j k [] = elim (Bool-cases (is_eq (cmp j k))) [
      | inl f ↦ rw f refl
      | inr f ↦ rw f refl
    ]
    get-remove j k ((i, w) ∷ m) =
        let ih = get-remove j k m in
        elim (Bool-cases (is_eq (cmp k i))) [
          | inl e ↦
              let q = keyed.same k i (is_eq-≡ (cmp k i) e) in
              elim (Bool-cases (is_eq (cmp j k))) [
                | inl f ↦ rw e (ih ∙ rw f refl)
                | inr f ↦
                    let f' : is_eq (cmp j i) ≡ false = rw (← q) f in rw e (ih ∙ rw (f, f') refl)
              ]
          | inr e ↦ elim (Bool-cases (is_eq (cmp j k))) [
            | inl f ↦
                let q = keyed.same j k (is_eq-≡ (cmp j k) f) in
                let n : is_eq (cmp j i) ≡ false = rw q e in rw (e, n) (ih ∙ rw f refl)
            | inr f ↦ rw (e, f) (rw (ih, f) refl)
          ]
        ]

    -- What an insertion finds: the value inserted, or one that was there.
    pub get-insert-some :
        (j k : K) (v r : V) (m : List (K × V))
        → get j (insert k v m) ≡ some r
        → ((j ≡ k) × (r ≡ v)) ⊎ (get j m ≡ some r)
    get-insert-some j k v r m h =
        let e = sym (get-insert j k v m) ∙ h in
        elim (Bool-cases (is_eq (cmp j k))) [
          | inl f ↦
              let e' : some v ≡ some r = rw f at e in inl (keyed.same j k (is_eq-≡ (cmp j k) f), cc)
          | inr f ↦ inr (rw f at e)
        ]

    pub get-insert_self : (k : K) (v : V) (m : List (K × V)) → get k (insert k v m) ≡ some v
    get-insert_self k v m = get-insert k k v m ∙ rw (keyed.self k) refl

    -- An insertion keeps every key.
    pub get-insert_kept :
        (j k : K) (v r : V) (m : List (K × V))
        → get j m ≡ some r
        → (r' : V) × (get j (insert k v m) ≡ some r')
    get-insert_kept j k v r m h = elim (Bool-cases (is_eq (cmp j k))) [
      | inl f ↦ (v, get-insert j k v m ∙ rw f refl)
      | inr f ↦ (r, get-insert j k v m ∙ rw f h)
    ]

    pub get-remove-some :
        (j k : K) (r : V) (m : List (K × V)) → get j (remove k m) ≡ some r → get j m ≡ some r
    get-remove-some j k r m h =
        let e = sym (get-remove j k m) ∙ h in
        elim (Bool-cases (is_eq (cmp j k))) [
          | inl f ↦ let e' : none ≡ some r = rw f at e in absurd (cc)
          | inr f ↦ rw f at e
        ]

    -- A key that is found is among the keys.
    pub get-mem : (k : K) (v : V) (m : List (K × V)) → get k m ≡ some v → Memᴰ k (keys m)
    unfolding get
    get-mem k v [] h = absurd (cc)
    get-mem k v ((j, w) ∷ m) h = elim (Bool-cases (is_eq (cmp k j))) [
      | inl e ↦ Memᴰ.head (keyed.same k j (is_eq-≡ (cmp k j) e))
      | inr e ↦ Memᴰ.tail (get-mem k v m (rw e at h))
    ]
