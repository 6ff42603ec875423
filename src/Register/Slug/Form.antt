-- ===== src/Register/Slug/Form.antt =====
-- slug.rs: the form and the length of a slug.
use fau_portalen.Prelude.{
  ℕ, zero, suc, ◌≤◌, ◌<◌, ◌≡◌, ◌⊎◌, inl, inr, refl, sym, ap, ◌∙◌, ok, err, Option, none, some, true,
  false, [], ◌∷◌, ◌++◌, arith, leb, if◌then◌else◌, is_empty, length, length-take_le, take,
  get_elem?, Bool-cases, Option-cases,
}
use mathlib.Core.Path.{subst}
use mathlib.Core.List.{append_assoc}
use fau_portalen.Text.{Text, Unicode, has_char}
use fau_portalen.Register.Fold.{latin_fold, collapse, transliterate}
use fau_portalen.Register.Fold.Words.{
  IsWords, reads_words-before_sep, reads_words-before, collapse-IsWords,
}
use fau_portalen.Register.Slug.{
  empty, dash, max_slug_len, rfind, char_is, up_to, cut_to_len, cap, slugify,
}

-- A text is its first `n` characters and the rest.
abbrev drop : ℕ → Text → Text
drop zero s = s
drop (suc n) [] = []
drop (suc n) (c ∷ s) = drop n s

take-append-drop : (n : ℕ) (s : Text) → take n s ++ drop n s ≡ s
take-append-drop zero s = refl
take-append-drop (suc n) [] = refl
take-append-drop (suc n) (c ∷ s) = ap (λ t. c ∷ t) (take-append-drop n s)

-- At a position that holds `d` the text goes on with `d`.
split_at : (n d : ℕ) (s : Text) → get_elem? s n ≡ some d → s ≡ take n s ++ (d ∷ drop (suc n) s)
split_at zero d [] h = absurd (cc)
split_at zero d (c ∷ s) h = ground arith
split_at (suc n) d [] h = absurd (cc)
split_at (suc n) d (c ∷ s) h = ap (λ t. c ∷ t) (split_at n d s h)

rfind-none : (c : ℕ) (s : Text) → rfind c s ≡ none → has_char c s ≡ false
unfolding rfind
rfind-none c [] h = refl
rfind-none c (d ∷ s) h = elim (Option-cases (rfind c s)) [
  | inl e ↦ ground (arith, e, rfind-none c s e)
  | inr (i, e) ↦ absurd (ground (arith, e))
]

rfind-some : (c : ℕ) (s : Text) (i : ℕ) → rfind c s ≡ some i → get_elem? s i ≡ some c
unfolding rfind
rfind-some c [] i h = absurd (cc)
rfind-some c (d ∷ s) i h = elim (Option-cases (rfind c s)) [
  | inl e ↦ ground (arith, e)
  | inr (j, e) ↦ let same : i ≡ suc j = ground (arith, e) in rw same (rfind-some c s j e)
]

length-up_to : (head : Text) (o : Option ℕ) → length (up_to head o) ≤ length head
length-up_to head none = omega arith
length-up_to head (some i) = length-take head i
  where
    length-take : (s : Text) (n : ℕ) → length (take n s) ≤ length s
    length-take s zero = omega arith
    length-take [] (suc n) = omega arith
    length-take (c ∷ s) (suc n) = omega (arith, length-take s n)

-- Cutting keeps within the limit.
pub length-cut_to_len : (s : Text) (n : ℕ) → length (cut_to_len s n) ≤ n
unfolding cut_to_len
length-cut_to_len s n =
    ground (arith, length-take_le n s, length-up_to (take n s) (rfind dash (take n s)))

-- The part of a slug before one of its hyphens.
before_dash :
    (s : Text) (i : ℕ) (rest : Text)
    → get_elem? s i ≡ some dash
    → IsWords dash (s ++ rest)
    → IsWords dash (take i s)
before_dash s i rest e h =
    let whole : s ++ rest ≡ take i s ++ (dash ∷ (drop (suc i) s ++ rest)) =
      ap (λ t. t ++ rest) (split_at i dash s e)
      ∙ append_assoc (take i s) (dash ∷ drop (suc i) s) rest in
    reads_words-before_sep dash false (take i s) (drop (suc i) s ++ rest) refl
      (subst (λ t. IsWords dash t) whole h)

take_nonempty : (n : ℕ) (s : Text) → 0 < n → n < length s → is_empty (take n s) ≡ false
take_nonempty zero s p l = absurd (omega arith)
take_nonempty (suc n) [] p l = absurd (omega arith)
take_nonempty (suc n) (c ∷ s) p l = refl

head-IsWords :
    (s : Text) (n : ℕ)
    → 0 < n
    → n < length s
    → IsWords dash (take n s ++ drop n s)
    → IsWords dash (up_to (take n s) (rfind dash (take n s)))
head-IsWords s n p l h = elim (Option-cases (rfind dash (take n s))) [
  | inl e ↦ rw e (
      reads_words-before dash false (take n s) (drop n s) h (rfind-none dash (take n s) e)
        (inr (take_nonempty n s p l)))
  | inr (i, e) ↦ rw e (before_dash (take n s) i (drop n s) (rfind-some dash (take n s) i e) h)
]

char_is-some : (o : Option ℕ) (c : ℕ) → char_is o c ≡ true → o ≡ some c
char_is-some none c h = absurd (cc)
char_is-some (some d) c h = ground arith

-- Cutting words at a hyphen, or where there is none, leaves words.
pub cut_to_len-IsWords : (s : Text) (n : ℕ) → 0 < n → IsWords dash s → IsWords dash (cut_to_len s n)
unfolding cut_to_len
cut_to_len-IsWords s n p h = elim (Bool-cases (leb (length s) n)) [
  | inl short ↦ rw short h
  | inr long ↦ elim (Bool-cases (char_is (get_elem? s n) dash)) [
    | inl d ↦
        rw (long, d)
          (reads_words-before_sep dash false (take n s) (drop (suc n) s) refl (
            subst (λ t. IsWords dash t) (split_at n dash s (char_is-some (get_elem? s n) dash d))
              h))
    | inr d ↦
        rw (long, d)
          (head-IsWords s n p (ground arith)
            (subst (λ t. IsWords dash t) (sym (take-append-drop n s)) h))
  ]
]

words_nonempty : (s : Text) → IsWords dash s → 0 < length s
words_nonempty [] h = absurd (cc)
words_nonempty (c ∷ s) h = omega arith

-- A slug: words of `[a-z0-9]` with one hyphen between each two, none at either end, at most 80
-- characters.
pub record IsSlug (s : Text) : Type 0 where
  pub words : IsWords dash s
  pub short : length s ≤ max_slug_len
  pub nonempty : 0 < length s

IsSlug-of_words :
    (s t : Text) → (t ≡ []) ⊎ IsWords dash t → is_empty (cap t) ≡ false → cap t ≡ s → IsSlug s
unfolding cap
IsSlug-of_words s t (inl e) n q = absurd (cc)
IsSlug-of_words s t (inr h) n q =
    let w : IsWords dash s =
      subst (λ r. IsWords dash r) q (cut_to_len-IsWords t max_slug_len (omega arith) h) in
    record {
      words = w;
      short = subst (λ r. length r ≤ max_slug_len) q (length-cut_to_len t max_slug_len);
      nonempty = words_nonempty s w;
    }

-- Whatever the name, and whatever the Unicode tables answer, what `slugify` returns is a slug.
pub slugify-IsSlug : (u : Unicode) (name s : Text) → slugify u name ≡ ok s → IsSlug s
slugify-IsSlug u name s h =
    let t : Text = collapse (latin_fold u name transliterate) dash in
    let (n, q) = minted t s (unfold slugify in h) in
    IsSlug-of_words s t (collapse-IsWords (latin_fold u name transliterate) dash refl) n q
  where
    minted :
        (t s : Text)
        → (if is_empty (cap t) then err empty else ok (cap t)) ≡ ok s
        → (is_empty (cap t) ≡ false) × (cap t ≡ s)
    minted t s h = ground arith
