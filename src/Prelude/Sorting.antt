-- ===== src/Prelude/Sorting.antt =====
-- `Ordering` and stable sorting by a comparison.
use Prim.Native.Nat.{Ordering, suc}
use mathlib.Core.Path.{◌≡◌, refl, ap, ◌∙◌}
use mathlib.Core.Logic.{inl, inr}
use mathlib.Core.Bool.{Bool, true, false}
use mathlib.Core.List.{List, [], ◌∷◌, Memᴰ, Permᴰ}
use mathlib.Core.List.Permᴰ as PermD
use mathlib.Core.List.Memᴰ as MemD
use fau_portalen.Prelude.Lists.{length}
use fau_portalen.Prelude.Tests.{if◌then◌else◌, Bool-cases}

-- `Ordering::then`
abbrev pub then_by : Ordering → Ordering → Ordering
then_by Ordering.eq other = other
then_by Ordering.lt other = Ordering.lt
then_by Ordering.gt other = Ordering.gt

abbrev pub is_gt : Ordering → Bool
is_gt Ordering.gt = true
is_gt Ordering.lt = false
is_gt Ordering.eq = false

module _ {ℓ} {A : Type ℓ} (cmp : A → A → Ordering) where
  -- `sort_by`, which is stable.
  unfoldable pub insert_by : A → List A → List A
  insert_by a [] = a ∷ []
  insert_by a (b ∷ bs) =
      let later = insert_by a bs in if is_gt (cmp a b) then b ∷ later else a ∷ (b ∷ bs)

  unfoldable pub sort_by : List A → List A
  sort_by [] = []
  sort_by (a ∷ as') = insert_by a (sort_by as')

  insert_by-mem : (x a : A) (as' : List A) → Memᴰ x (insert_by a as') → Memᴰ x (a ∷ as')
  unfolding insert_by
  insert_by-mem x a [] m = m
  insert_by-mem x a (b ∷ bs) m = elim (Bool-cases (is_gt (cmp a b))) [
    | inl e ↦ elim (MemD.cases_cons (rw e at m)) [
      | inl q ↦ Memᴰ.tail (Memᴰ.head q)
      | inr m' ↦ elim (MemD.cases_cons (insert_by-mem x a bs m')) [
        | inl q ↦ Memᴰ.head q
        | inr m'' ↦ Memᴰ.tail (Memᴰ.tail m'')
      ]
    ]
    | inr e ↦ rw e at m
  ]

  -- What a sorted list has, the list has.
  pub sort_by-mem : (x : A) (as' : List A) → Memᴰ x (sort_by as') → Memᴰ x as'
  unfolding sort_by
  sort_by-mem x [] m = m
  sort_by-mem x (a ∷ as') m = elim (MemD.cases_cons (insert_by-mem x a (sort_by as') m)) [
    | inl q ↦ Memᴰ.head q
    | inr m' ↦ Memᴰ.tail (sort_by-mem x as' m')
  ]

  insert_by-keeps : (x a : A) (as' : List A) → Memᴰ x (a ∷ as') → Memᴰ x (insert_by a as')
  unfolding insert_by
  insert_by-keeps x a [] m = m
  insert_by-keeps x a (b ∷ bs) m = elim (Bool-cases (is_gt (cmp a b))) [
    | inr e ↦ rw e m
    | inl e ↦ elim (MemD.cases_cons m) [
      | inl q ↦ rw e (Memᴰ.tail (insert_by-keeps x a bs (Memᴰ.head q)))
      | inr m' ↦ elim (MemD.cases_cons m') [
        | inl q ↦ rw e (Memᴰ.head q)
        | inr m'' ↦ rw e (Memᴰ.tail (insert_by-keeps x a bs (Memᴰ.tail m'')))
      ]
    ]
  ]

  -- What a list has, it has when it is sorted.
  pub mem-sort_by : (x : A) (as' : List A) → Memᴰ x as' → Memᴰ x (sort_by as')
  unfolding sort_by
  mem-sort_by x [] m = m
  mem-sort_by x (a ∷ as') m =
      insert_by-keeps x a (sort_by as') (elim (MemD.cases_cons m) [
        | inl q ↦ Memᴰ.head q
        | inr m' ↦ Memᴰ.tail (mem-sort_by x as' m')
      ])

  insert_by-Permᴰ : (a : A) (as' : List A) → Permᴰ (insert_by a as') (a ∷ as')
  unfolding insert_by
  insert_by-Permᴰ a [] = PermD.refl (a ∷ [])
  insert_by-Permᴰ a (b ∷ bs) = elim (Bool-cases (is_gt (cmp a b))) [
    | inl e ↦ rw e (Permᴰ.trans (Permᴰ.cons refl (insert_by-Permᴰ a bs)) (Permᴰ.swap refl refl))
    | inr e ↦ rw e (PermD.refl (a ∷ b ∷ bs))
  ]

  -- Sorting rearranges.
  pub sort_by-Permᴰ : (as' : List A) → Permᴰ (sort_by as') as'
  unfolding sort_by
  sort_by-Permᴰ [] = Permᴰ.nil
  sort_by-Permᴰ (a ∷ as') =
      Permᴰ.trans (insert_by-Permᴰ a (sort_by as')) (Permᴰ.cons refl (sort_by-Permᴰ as'))

  insert_by-length : (a : A) (as' : List A) → length (insert_by a as') ≡ suc (length as')
  unfolding insert_by
  insert_by-length a [] = refl
  insert_by-length a (b ∷ bs) = elim (Bool-cases (is_gt (cmp a b))) [
    | inr e ↦ rw e refl
    | inl e ↦ rw e (ap (λ n. suc n) (insert_by-length a bs))
  ]

  pub length-sort_by : (as' : List A) → length (sort_by as') ≡ length as'
  unfolding sort_by
  length-sort_by [] = refl
  length-sort_by (a ∷ as') = insert_by-length a (sort_by as') ∙ ap (λ n. suc n) (length-sort_by as')

abbrev pub is_eq : Ordering → Bool
is_eq Ordering.eq = true
is_eq Ordering.lt = false
is_eq Ordering.gt = false
