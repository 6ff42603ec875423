-- ===== src/Prelude/Pigeonhole.antt =====
-- A list that holds `k` different values has at least `k` elements.
use mathlib.Core.List.Memᴰ as MemD
use Prim.Native.Nat.{ℕ, zero, suc, ◌+◌, ◌≤◌, ◌<◌}
use mathlib.Core.Path.{◌≡◌, sym, ◌∙◌}
use mathlib.Core.Logic.{◌≢◌, inl, inr}
use mathlib.Core.List.{List, ◌∷◌, Memᴰ}
use native.Mathlib.Omega.{arith}
use fau_portalen.Prelude.Lists.{length}

module _ {ℓ} {A : Type ℓ} where
  -- The list without the element that the membership points at.
  without : {a : A} {xs : List A} → Memᴰ a xs → List A
  without (Memᴰ.head {xs = r} e) = r
  without (Memᴰ.tail {x = x} m) = x ∷ without m

  length-without : {a : A} {xs : List A} (m : Memᴰ a xs) → length xs ≡ suc (length (without m))
  unfolding without
  length-without (Memᴰ.head e) = omega arith
  length-without (Memᴰ.tail m) = omega (arith, length-without m)

  mem-without :
      {a : A} {xs : List A} (m : Memᴰ a xs) {b : A} → b ≢ a → Memᴰ b xs → Memᴰ b (without m)
  unfolding without
  mem-without (Memᴰ.head e) n k = elim (MemD.cases_cons k) [
    | inl q ↦ absurd (n (q ∙ sym e))
    | inr k' ↦ k'
  ]
  mem-without (Memᴰ.tail m) n k = elim (MemD.cases_cons k) [
    | inl q ↦ Memᴰ.head q
    | inr k' ↦ Memᴰ.tail (mem-without m n k')
  ]

module _ {ℓ} {A : Type ℓ} (f : ℕ → A) (injective : (i j : ℕ) → f i ≡ f j → i ≡ j) where
  pub pigeonhole :
      (k n : ℕ) (ys : List A) → ((i : ℕ) → n ≤ i → i < n + k → Memᴰ (f i) ys) → k ≤ length ys
  pigeonhole zero n ys h = omega arith
  pigeonhole (suc k) n ys h =
      let m : Memᴰ (f n) ys = h n (omega arith) (omega arith) in
      omega (
        arith,
        length-without m,
        pigeonhole k (n + 1) (without m) (λ i l u.
            mem-without m (λ e. absurd (omega (arith, injective i n e)))
              (h i (omega arith) (omega arith))),
      )
