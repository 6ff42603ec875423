-- ===== src/Text/Order.antt =====
-- `Ord for str`: byte by byte, which for UTF-8 is code point by code point.
use fau_portalen.Prelude.{ℕ, ◌≡◌, refl, Ordering, compare, then_by, [], ◌∷◌, arith}
use fau_portalen.Prelude.Map.{IsKeyed}
use fau_portalen.Text.Trim.{Text}

unfoldable pub text_cmp : Text → Text → Ordering
text_cmp [] [] = Ordering.eq
text_cmp [] (d ∷ t) = Ordering.lt
text_cmp (c ∷ s) [] = Ordering.gt
text_cmp (c ∷ s) (d ∷ t) = then_by (compare c d) (text_cmp s t)

text_cmp_same : (s t : Text) → text_cmp s t ≡ Ordering.eq → s ≡ t
unfolding text_cmp
text_cmp_same [] [] h = refl
text_cmp_same [] (d ∷ t) h = absurd (cc)
text_cmp_same (c ∷ s) [] h = absurd (cc)
text_cmp_same (c ∷ s) (d ∷ t) h = ground (arith, text_cmp_same s t)

text_cmp_self : (s : Text) → text_cmp s s ≡ Ordering.eq
unfolding text_cmp
text_cmp_self [] = refl
text_cmp_self (c ∷ s) = ground (arith, text_cmp_self s)

-- The order is transitive, and one of two texts comes first.
pub text_cmp_trans :
    (r s t : Text)
    → text_cmp r s ≡ Ordering.lt
    → text_cmp s t ≡ Ordering.lt
    → text_cmp r t ≡ Ordering.lt
unfolding text_cmp
text_cmp_trans [] [] t h k = absurd (cc)
text_cmp_trans [] (b ∷ s) [] h k = absurd (cc)
text_cmp_trans [] (b ∷ s) (c ∷ t) h k = refl
text_cmp_trans (a ∷ r) [] t h k = absurd (cc)
text_cmp_trans (a ∷ r) (b ∷ s) [] h k = absurd (cc)
text_cmp_trans (a ∷ r) (b ∷ s) (c ∷ t) h k = ground (arith, text_cmp_trans r s t)

pub text_cmp_flip : (s t : Text) → text_cmp s t ≡ Ordering.gt → text_cmp t s ≡ Ordering.lt
unfolding text_cmp
text_cmp_flip [] [] h = absurd (cc)
text_cmp_flip [] (d ∷ t) h = absurd (cc)
text_cmp_flip (c ∷ s) [] h = refl
text_cmp_flip (c ∷ s) (d ∷ t) h = ground (arith, text_cmp_flip s t)

pub text_cmp-IsKeyed : IsKeyed text_cmp
text_cmp-IsKeyed = record { same = text_cmp_same; self = text_cmp_self }

compare_same : (a b : ℕ) → compare a b ≡ Ordering.eq → a ≡ b
compare_same a b h = ground arith

compare_self : (a : ℕ) → compare a a ≡ Ordering.eq
compare_self a = ground arith

pub compare-IsKeyed : IsKeyed compare
compare-IsKeyed = record { same = compare_same; self = compare_self }
