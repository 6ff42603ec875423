-- ===== src/Register/Slug/Resolve.antt =====
-- slug.rs, `resolve` and `municipality_slug`.
use mathlib.Core.List.Memᴰ as MemD
use fau_portalen.Prelude.{
  ◌≡◌, ◌↔◌, refl, sym, ap, ◌∙◌, Option, none, some, Bool, true, List, [], ◌∷◌, ◌++◌, Memᴰ, arith,
  ok, all, if◌then◌else◌, length, Bool-cases, Result-cases, inl, inr,
}
use fau_portalen.Text.{Text, Unicode}
use fau_portalen.Register.Slug.{dash, resolve, redirect, not_found, municipality_slug, slugify}

redirect_eq {ℓ} : {Holder : Type ℓ} (a b : Holder) → redirect a ≡ redirect b → a ≡ b
redirect_eq a b h = cc

module _ {ℓ} {Holder : Type ℓ} (eq : Holder → Holder → Bool)
    (eq_iff : (a b : Holder) → (eq a b ≡ true) ↔ (a ≡ b)) where
  all_same :
      (first : Holder) (rest : List Holder)
      → all (λ h. eq h first) rest ≡ true
      → (a : Holder) → Memᴰ a rest
      → a ≡ first
  all_same first [] h a m = absurd (MemD.not-nil m)
  all_same first (x ∷ rest) h a m = elim (MemD.cases_cons m) [
    | inl e ↦ e ∙ (eq_iff x first).0 (ground arith)
    | inr m' ↦ all_same first rest (ground arith) a m'
  ]

  same_all :
      (first : Holder) (rest : List Holder)
      → ((a : Holder) → Memᴰ a rest → a ≡ first)
      → all (λ h. eq h first) rest ≡ true
  same_all first [] h = refl
  same_all first (x ∷ rest) h =
      let e : eq x first ≡ true = (eq_iff x first).1 (h x (Memᴰ.head refl)) in
      rw e (same_all first rest (λ a m. h a (Memᴰ.tail m)))

  -- A path leads to a former holder exactly when it has no current holder, that holder stands in its
  -- history, and the history holds nobody else.
  pub resolve-redirect :
      (now : Option Holder) (historical : List Holder) (id : Holder)
      → (resolve eq now historical ≡ redirect id)
        ↔ ((now ≡ none) × Memᴰ id historical × ((a : Holder) → Memᴰ a historical → a ≡ id))
  unfolding resolve
  resolve-redirect (some x) historical id = (λ h. absurd (cc), λ (e, m, o). absurd (cc))
  resolve-redirect none [] id = (λ h. absurd (cc), λ (e, m, o). absurd (MemD.not-nil m))
  resolve-redirect none (first ∷ rest) id = (to, from)
    where
      others : Bool
      others = all (λ h. eq h first) rest

      to :
          (if others then redirect first else not_found) ≡ redirect id
          → ◌≡◌ {A = Option Holder} none none
            × Memᴰ id (first ∷ rest)
            × ((a : Holder) → Memᴰ a (first ∷ rest) → a ≡ id)
      to h = elim (Bool-cases others) [
        | inl t ↦
            let e : first ≡ id = redirect_eq first id (rw t at h) in
            (
              refl,
              Memᴰ.head (sym e),
              λ a m. elim (MemD.cases_cons m) [
                | inl q ↦ q ∙ e
                | inr m' ↦ all_same first rest t a m' ∙ e
              ],
            )
        | inr f ↦ absurd (ground (arith, f))
      ]

      from :
          ◌≡◌ {A = Option Holder} none none
            × Memᴰ id (first ∷ rest)
            × ((a : Holder) → Memᴰ a (first ∷ rest) → a ≡ id)
          → (if others then redirect first else not_found) ≡ redirect id
      from (n, m, o) =
          let e : first ≡ id = o first (Memᴰ.head refl) in
          let t : others ≡ true = same_all first rest (λ a k. o a (Memᴰ.tail k) ∙ sym e) in
          rw t (ap redirect e)

digits_eq : (m n : Text) (s t : Text) → length m ≡ length n → m ++ s ≡ n ++ t → m ≡ n
digits_eq [] [] s t l e = refl
digits_eq [] (d ∷ n) s t l e = absurd (omega arith)
digits_eq (c ∷ m) [] s t l e = absurd (omega arith)
digits_eq (c ∷ m) (d ∷ n) s t l e =
    let rest : m ++ s ≡ n ++ t = ground arith in
    let ih : m ≡ n = digits_eq m n s t (omega arith) rest in ground (arith, ih)

number_of :
    (u : Unicode) (number name s : Text)
    → municipality_slug u number name ≡ ok s
    → (length number ≡ 4) × ((slug : Text) × (s ≡ number ++ (dash ∷ slug)))
unfolding municipality_slug
number_of u number name s h = elim (Result-cases (slugify u name)) [
  | inl (slug, e) ↦ (ground (arith, e), (slug, ground (arith, e)))
  | inr (x, e) ↦ absurd (ground (arith, e))
]

-- The slugs of municipalities with different numbers are different, whatever their names.
pub municipality_slug_injective :
    (u : Unicode) (number number' name name' s : Text)
    → municipality_slug u number name ≡ ok s
    → municipality_slug u number' name' ≡ ok s
    → number ≡ number'
municipality_slug_injective u number number' name name' s h h' =
    let (l, (t, e)) = number_of u number name s h in
    let (l', (t', e')) = number_of u number' name' s h' in
    digits_eq number number' (dash ∷ t) (dash ∷ t') (omega arith) (sym e ∙ e')
