-- ===== src/Prelude/Lists.antt =====
-- Lists measured by native numbers, tested by Boolean functions, and the laws the components share.
use Prim.Native.Nat.{ℕ, zero, suc, ◌+◌, ◌≤◌}
use mathlib.Core.Path.{◌≡◌, refl, ap, sym, ◌∙◌}
use mathlib.Core.Bool.{Bool, true, false, ◌&&◌, ◌||◌}
use mathlib.Core.Logic.{inl, inr}
use mathlib.Core.List.{List, [], ◌∷◌, ◌++◌, map, Memᴰ}
use mathlib.Core.List.Memᴰ as MemD
use mathlib.Core.Option.{Option, none, some}
use native.Mathlib.Omega.{arith}
use fau_portalen.Prelude.Tests.{if◌then◌else◌, Bool-cases}

module _ {ℓ} {A : Type ℓ} where
  abbrev pub length : List A → ℕ
  length [] = 0
  length (x ∷ xs) = suc (length xs)

  abbrev pub take : ℕ → List A → List A
  take zero xs = []
  take (suc n) [] = []
  take (suc n) (x ∷ xs) = x ∷ take n xs

  abbrev pub drop : ℕ → List A → List A
  drop zero xs = xs
  drop (suc n) [] = []
  drop (suc n) (x ∷ xs) = drop n xs

  abbrev pub get_elem? : List A → ℕ → Option A
  get_elem? [] i = none
  get_elem? (x ∷ xs) zero = some x
  get_elem? (x ∷ xs) (suc i) = get_elem? xs i

  abbrev pub is_empty : List A → Bool
  is_empty [] = true
  is_empty (x ∷ xs) = false

  -- `Iterator::any`, `Iterator::all`, `Iterator::filter` and `Iterator::find`.
  abbrev pub any : (A → Bool) → List A → Bool
  any p [] = false
  any p (x ∷ xs) = p x || any p xs

  abbrev pub all : (A → Bool) → List A → Bool
  all p [] = true
  all p (x ∷ xs) = p x && all p xs

  abbrev pub filter : (A → Bool) → List A → List A
  filter p [] = []
  filter p (x ∷ xs) = let rest = filter p xs in if p x then x ∷ rest else rest

  abbrev pub find : (A → Bool) → List A → Option A
  find p [] = none
  find p (x ∷ xs) = let rest = find p xs in if p x then some x else rest

  abbrev pub All {κ} : (A → Type κ) → List A → Type κ
  All P [] = Unit
  All P (x ∷ xs) = P x × All P xs

module _ {ℓ} {A : Type ℓ} where
  pub length-append : (xs ys : List A) → length (xs ++ ys) ≡ length xs + length ys
  length-append [] ys = omega arith
  length-append (x ∷ xs) ys = omega (arith, length-append xs ys)

  pub length-take_le : (n : ℕ) (xs : List A) → length (take n xs) ≤ n
  length-take_le zero xs = omega arith
  length-take_le (suc n) [] = omega arith
  length-take_le (suc n) (x ∷ xs) = omega (arith, length-take_le n xs)

  -- `any` answers true exactly when some element passes.
  pub any-mem : (p : A → Bool) {a : A} {xs : List A} → Memᴰ a xs → p a ≡ true → any p xs ≡ true
  any-mem p {a} (Memᴰ.head {x = x} {xs = r} e) t = let t' : p x ≡ true = sym (ap p e) ∙ t in rw t'
  any-mem p {a} (Memᴰ.tail {x = x} {xs = r} h) t =
      let ih : any p r ≡ true = any-mem p h t in ground arith

  pub mem-any : (p : A → Bool) (xs : List A) → any p xs ≡ true → (a : A) × Memᴰ a xs × (p a ≡ true)
  mem-any p [] h = absurd (cc)
  mem-any p (x ∷ xs) h = elim (Bool-cases (p x)) [
    | inl t ↦ (x, Memᴰ.head refl, t)
    | inr f ↦ let (a, m, t) = mem-any p xs (ground arith) in (a, Memᴰ.tail m, t)
  ]

  pub any-false : (p : A → Bool) {a : A} {xs : List A} → any p xs ≡ false → Memᴰ a xs → p a ≡ false
  any-false p {a} {xs} h m = elim (Bool-cases (p a)) [ inl t ↦ cc (any-mem p m t) | inr f ↦ f ]

  pub mem-filter :
      (p : A → Bool) {a : A} {xs : List A} → Memᴰ a xs → p a ≡ true → Memᴰ a (filter p xs)
  mem-filter p (Memᴰ.head {x = x} e) t =
      let t' : p x ≡ true = sym (ap p e) ∙ t in rw t' (Memᴰ.head e)
  mem-filter p {a} (Memᴰ.tail {x = x} {xs = r} h) t =
      let ih : Memᴰ a (filter p r) = mem-filter p h t in
      elim (Bool-cases (p x)) [ inl px ↦ rw px (Memᴰ.tail ih) | inr px ↦ rw px ih ]

  pub filter-mem :
      (p : A → Bool) (a : A) (xs : List A) → Memᴰ a (filter p xs) → Memᴰ a xs × (p a ≡ true)
  filter-mem p a [] h = absurd (MemD.not-nil h)
  filter-mem p a (x ∷ xs) h = elim (Bool-cases (p x)) [
    | inl px ↦ elim (MemD.cases_cons (rw px at h)) [
      | inl e ↦ (Memᴰ.head e, rw e px)
      | inr m ↦ let (m', t) = filter-mem p a xs m in (Memᴰ.tail m', t)
    ]
    | inr px ↦ let (m, t) = filter-mem p a xs (rw px at h) in (Memᴰ.tail m, t)
  ]

  pub any-append : (p : A → Bool) (xs ys : List A) → any p (xs ++ ys) ≡ (any p xs || any p ys)
  any-append p [] ys = refl
  any-append p (x ∷ xs) ys = ground (arith, any-append p xs ys)

  pub all-append : (p : A → Bool) (xs ys : List A) → all p (xs ++ ys) ≡ (all p xs && all p ys)
  all-append p [] ys = refl
  all-append p (x ∷ xs) ys = ground (arith, all-append p xs ys)

  pub any_congr : (p q : A → Bool) (xs : List A) → ((a : A) → p a ≡ q a) → any p xs ≡ any q xs
  any_congr p q [] h = refl
  any_congr p q (x ∷ xs) h = ground (arith, h x, any_congr p q xs h)

module _ {ℓ κ} {A : Type ℓ} {B : Type κ} where
  pub any-map-filter :
      (q : B → Bool) (f : A → B) (p : A → Bool) (xs : List A)
      → any q (map f (filter p xs)) ≡ any (λ a. p a && q (f a)) xs
  any-map-filter q f p [] = refl
  any-map-filter q f p (x ∷ xs) = elim (Bool-cases (p x)) [
    | inl t ↦ rw t (rw (any-map-filter q f p xs))
    | inr t ↦ rw t (any-map-filter q f p xs)
  ]

module _ {ℓ κ} {A : Type ℓ} (P : A → Type κ) where
  pub All-mem : {a : A} (xs : List A) → All P xs → Memᴰ a xs → P a
  All-mem [] h m = absurd (MemD.not-nil m)
  All-mem (x ∷ xs) h m = elim (MemD.cases_cons m) [ inl e ↦ rw e h.0 | inr m' ↦ All-mem xs h.1 m' ]

  pub All-of : (xs : List A) → ((a : A) → Memᴰ a xs → P a) → All P xs
  All-of [] f = tt
  All-of (x ∷ xs) f = (f x (Memᴰ.head refl), All-of xs (λ a m. f a (Memᴰ.tail m)))

  pub All-append : (xs ys : List A) → All P xs → All P ys → All P (xs ++ ys)
  All-append [] ys hx hy = hy
  All-append (x ∷ xs) ys hx hy = (hx.0, All-append xs ys hx.1 hy)
