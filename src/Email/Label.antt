-- ===== src/Email/Label.antt =====
-- email.rs, `is_domain_label`: what a label of a domain is.
use mathlib.Core.List.Memᴰ as MemD
use fau_portalen.Prelude.{
  ℕ, ◌≡◌, ◌≢◌, ◌↔◌, refl, sym, ap, ◌∙◌, true, false, ◌||◌, List, [], ◌∷◌, ◌++◌, Memᴰ, ◌==◌, arith,
  all, is_empty, inl, inr,
}
use fau_portalen.Text.{Text, Unicode}
use fau_portalen.Email.{starts_with, ends_with, is_domain_label}

-- A label is not empty, is made of alphanumeric characters and hyphens, and has no hyphen at either
-- end.
pub record IsLabel (u : Unicode) (w : Text) : Type 0 where
  filled : w ≢ []
  plain : all (λ c. u.is_alphanumeric c || c == b'-') w ≡ true
  no_start : (c : ℕ) (s : Text) → w ≡ c ∷ s → c ≢ b'-'
  no_end : (s : Text) (c : ℕ) → w ≡ s ++ (c ∷ []) → c ≢ b'-'

ends_with-append : (c : ℕ) (s : Text) (d : ℕ) → ends_with c (s ++ (d ∷ [])) ≡ (d == c)
ends_with-append c [] d = refl
ends_with-append c (x ∷ []) d = refl
ends_with-append c (x ∷ y ∷ s) d = ends_with-append c (y ∷ s) d

-- A text that is not empty has a last character.
last_of : (c : ℕ) (s : Text) → (front : Text) × (d : ℕ) × (c ∷ s ≡ front ++ (d ∷ []))
last_of c [] = ([], c, refl)
last_of c (d ∷ s) = let (front, e, q) = last_of d s in (c ∷ front, e, ap (λ r. c ∷ r) q)

label_at :
    (u : Unicode) (w : Text)
    → (is_domain_label u w ≡ true) ↔ (
        (is_empty w ≡ false)
        × (starts_with b'-' w ≡ false)
        × (ends_with b'-' w ≡ false)
        × (all (λ c. u.is_alphanumeric c || c == b'-') w ≡ true))
unfolding is_domain_label
label_at u w = ground arith

IsLabel-of : (u : Unicode) (w : Text) → is_domain_label u w ≡ true → IsLabel u w
IsLabel-of u w h =
    let (a, b, c, d) = (label_at u w).0 h in
    record {
      filled = λ e. absurd (cc (a, ap is_empty e));
      plain = d;
      no_start = λ x s e q.
          let t : (x == b'-') ≡ false = sym (ap (starts_with b'-') e) ∙ b in ground (arith, t, q);
      no_end = λ s x e q.
          let t : (x == b'-') ≡ false =
            sym (ends_with-append b'-' s x) ∙ (sym (ap (ends_with b'-') e) ∙ c) in
          ground (arith, t, q);
    }

unequal : (c d : ℕ) → c ≢ d → (c == d) ≡ false
unequal c d n = ground (arith, n)

of-IsLabel : (u : Unicode) (w : Text) → IsLabel u w → is_domain_label u w ≡ true
of-IsLabel u [] l = absurd (l.filled refl)
of-IsLabel u (c ∷ s) l =
    let (front, d, e) = last_of c s in
    (label_at u (c ∷ s)).1 (
      refl,
      unequal c b'-' (l.no_start c s refl),
      ap (ends_with b'-') e ∙ (ends_with-append b'-' front d ∙ unequal d b'-' (l.no_end front d e)),
      l.plain,
    )

-- What the test of all labels decides.
pub all-IsLabel :
    (u : Unicode) (ws : List Text)
    → (all (is_domain_label u) ws ≡ true) ↔ ((w : Text) → Memᴰ w ws → IsLabel u w)
all-IsLabel u [] = (λ h w m. absurd (MemD.not-nil m), λ h. refl)
all-IsLabel u (v ∷ ws) =
    let (f, g) = all-IsLabel u ws in
    (
      λ h w m. elim (MemD.cases_cons m) [
        | inl e ↦ rw e (IsLabel-of u v (ground arith))
        | inr m' ↦ f (ground arith) w m'
      ],
      λ h.
          let a = of-IsLabel u v (h v (Memᴰ.head refl)) in
          let b = g (λ w m. h w (Memᴰ.tail m)) in rw (a, b) refl,
    )
