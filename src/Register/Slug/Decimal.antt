-- ===== src/Register/Slug/Decimal.antt =====
-- slug.rs: the decimal suffixes of numbered slugs, and the slug before a suffix.
use fau_portalen.Prelude.{
  ℕ, zero, suc, ◌+◌, ◌-◌, ◌*◌, ◌/◌, ◌%◌, ◌^◌, ◌≤◌, ◌<◌, ◌≡◌, refl, sym, ap, ◌∙◌, false, [], ◌∷◌,
  ◌++◌, arith, ltb, ◌==◌, length, length-append, any-append, Bool-cases, inl, inr,
}
use native.Mathlib.Nat.{pow-suc, mul_comm}
use fau_portalen.Text.{Text, has_char, rsplit_once, rsplit_once-append}
use fau_portalen.Register.Fold.Words.{IsWords, reads_words-append}
use fau_portalen.Register.Slug.{dash, decimal_from, decimal}

-- The number that digits stand for.
value_from : ℕ → Text → ℕ
value_from acc [] = acc
value_from acc (c ∷ s) = value_from (acc * 10 + (c - 48)) s

value_from-append :
    (acc : ℕ) (s : Text) (c : ℕ) → value_from acc (s ++ (c ∷ [])) ≡ value_from acc s * 10 + (c - 48)
unfolding value_from
value_from-append acc [] c = refl
value_from-append acc (d ∷ s) c = value_from-append (acc * 10 + (d - 48)) s c

value-decimal_from : (fuel n : ℕ) → n < fuel → value_from 0 (decimal_from fuel n) ≡ n
unfolding decimal_from
value-decimal_from zero n h = absurd (omega arith)
value-decimal_from (suc fuel) n h = elim (Bool-cases (ltb n 10)) [
  | inl t ↦ rw t (unfold value_from in omega arith)
  | inr t ↦ rw t (
      value_from-append 0 (decimal_from fuel (n / 10)) (48 + n % 10)
      ∙ ground (arith, value-decimal_from fuel (n / 10)))
]

-- Different numbers have different digits.
pub decimal_injective : (m n : ℕ) → decimal m ≡ decimal n → m ≡ n
unfolding decimal
decimal_injective m n e =
    sym (value-decimal_from (m + 1) m (omega arith))
    ∙ ap (value_from 0) e
    ∙ value-decimal_from (n + 1) n (omega arith)

-- The digits contain no hyphen.
no_dash : (fuel n : ℕ) → has_char dash (decimal_from fuel n) ≡ false
unfolding decimal_from
no_dash zero n = refl
no_dash (suc fuel) n = elim (Bool-cases (ltb n 10)) [
  | inl t ↦ rw t (ground arith)
  | inr t ↦ rw t (
      any-append (λ d. d == dash) (decimal_from fuel (n / 10)) _
      ∙ ground (arith, no_dash fuel (n / 10)))
]

pub decimal_no_dash : (n : ℕ) → has_char dash (decimal n) ≡ false
unfolding decimal
decimal_no_dash n = no_dash (n + 1) n

digits-IsWords : (fuel n : ℕ) → n < fuel → IsWords dash (decimal_from fuel n)
unfolding decimal_from
digits-IsWords zero n h = absurd (omega arith)
digits-IsWords (suc fuel) n h = elim (Bool-cases (ltb n 10)) [
  | inl t ↦ rw t (ground arith)
  | inr t ↦ rw t (
      reads_words-append dash false (decimal_from fuel (n / 10)) _
        (digits-IsWords fuel (n / 10) (ground arith)) (ground arith))
]

pub decimal-IsWords : (n : ℕ) → IsWords dash (decimal n)
unfolding decimal
decimal-IsWords n = digits-IsWords (n + 1) n (omega arith)

length-decimal_from : (k fuel n : ℕ) → n < 10 ^ suc k → length (decimal_from fuel n) ≤ suc k
unfolding decimal_from
length-decimal_from k zero n h = omega arith
length-decimal_from zero (suc fuel) n h = ground arith
length-decimal_from (suc k) (suc fuel) n h =
    let p : n < 10 * 10 ^ suc k = rw (← mul_comm (10 ^ suc k) 10, ← pow-suc) h in
    let q : n / 10 < 10 ^ suc k = omega arith in
    ground (
      arith,
      length-decimal_from k fuel (n / 10) q,
      length-append (decimal_from fuel (n / 10)) ((48 + n % 10) ∷ []),
    )

-- A number below 10^10, so every `u32`, has at most ten digits.
pub length-decimal : (n : ℕ) → n < 10 ^ 10 → length (decimal n) ≤ 10
unfolding decimal
length-decimal n h = length-decimal_from 9 (n + 1) n h

-- What follows the last hyphen of a text is determined by the text.
pub after_dash :
    (l m d e : Text)
    → has_char dash d ≡ false
    → has_char dash e ≡ false
    → l ++ (dash ∷ d) ≡ m ++ (dash ∷ e)
    → d ≡ e
after_dash l m d e p q h =
    cc (rsplit_once-append dash l d p, rsplit_once-append dash m e q, ap (rsplit_once dash) h)
