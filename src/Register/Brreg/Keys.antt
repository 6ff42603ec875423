-- ===== src/Register/Brreg/Keys.antt =====
-- register/brreg.rs: where the keys come from.
use mathlib.Core.List.Memᴰ as MemD
use fau_portalen.Prelude.{
  ◌≡◌, ◌↔◌, ◌⊎◌, inl, inr, refl, sym, ap, ◌∙◌, Ordering, then_by, is_eq, sort_by, sort_by-mem,
  mem-sort_by, Option, none, some, true, List, [], ◌∷◌, Memᴰ, either_way, false, ◌&&◌, any, all,
  length, leb, ◌==◌, Bool-cases, arith,
}
use fau_portalen.Prelude.Map.{is_eq-≡, is_some}
use fau_portalen.Text.{Text, Unicode, trim, join, is_ascii_digit, text_cmp, text_cmp-IsKeyed}
use fau_portalen.Register.Brreg.Words.{fold_words, is_personal, is_postbox, first_digit_index}
use fau_portalen.Register.Search.{space}
use fau_portalen.Register.Brreg.Personal.{
  names_person, names_box, is_numbered, is_personal_lem, is_postbox_lem, is_some-first_digit_index,
}
use fau_portalen.Register.Brreg.Street.{push_words, normalise_street_words}
use fau_portalen.Register.Brreg.{
  AddressKey, key_cmp, dedup_keys_after, dedup_keys, valid_postcode, keys_with, sorted_keys,
  push_some, streets_of, street_line, address_keys,
}

key_same : (a b : AddressKey) → is_eq (key_cmp a b) ≡ true → a ≡ b
unfolding key_cmp
key_same a b h =
    let (x, y) = both (text_cmp a.street b.street) (text_cmp a.postcode b.postcode) h in
    let e = text_cmp-IsKeyed.same a.street b.street x in
    let f = text_cmp-IsKeyed.same a.postcode b.postcode y in cc
  where
    both : (o p : Ordering) → is_eq (then_by o p) ≡ true → (o ≡ Ordering.eq) × (p ≡ Ordering.eq)
    both Ordering.eq p h = (refl, is_eq-≡ p h)
    both Ordering.lt p h = absurd (cc)
    both Ordering.gt p h = absurd (cc)

-- The repeats that go are equal to a key that is kept.
kept_after :
    (last k : AddressKey) (ks : List AddressKey)
    → Memᴰ k (last ∷ ks)
    → Memᴰ k (last ∷ dedup_keys_after last ks)
unfolding dedup_keys_after
kept_after last k [] m = m
kept_after last k (j ∷ ks) m =
    either_way (λ (l : List AddressKey). Memᴰ k (last ∷ l)) (is_eq (key_cmp last j))
      (λ t. kept_after last k ks (without last j k ks (key_same last j t) m))
      (λ t. elim (MemD.cases_cons m) [
        | inl e ↦ Memᴰ.head e
        | inr m' ↦ Memᴰ.tail (kept_after j k ks m')
      ])
  where
    without :
        (last j k : AddressKey) (ks : List AddressKey)
        → last ≡ j
        → Memᴰ k (last ∷ j ∷ ks)
        → Memᴰ k (last ∷ ks)
    without last j k ks e m = elim (MemD.cases_cons m) [
      | inl f ↦ Memᴰ.head f
      | inr m' ↦ elim (MemD.cases_cons m') [
        | inl f ↦ Memᴰ.head (f ∙ sym e)
        | inr m'' ↦ Memᴰ.tail m''
      ]
    ]

from_after :
    (last k : AddressKey) (ks : List AddressKey) → Memᴰ k (dedup_keys_after last ks) → Memᴰ k ks
unfolding dedup_keys_after
from_after last k [] = λ m. m
from_after last k (j ∷ ks) =
    either_way (λ (l : List AddressKey). Memᴰ k l → Memᴰ k (j ∷ ks)) (is_eq (key_cmp last j))
      (λ t m. Memᴰ.tail (from_after last k ks m))
      (λ t m. elim (MemD.cases_cons m) [
        | inl e ↦ Memᴰ.head e
        | inr m' ↦ Memᴰ.tail (from_after j k ks m')
      ])

dedup_iff : (k : AddressKey) (ks : List AddressKey) → Memᴰ k (dedup_keys ks) ↔ Memᴰ k ks
unfolding dedup_keys
dedup_iff k [] = (λ m. m, λ m. m)
dedup_iff k (j ∷ ks) = (
  λ m. elim (MemD.cases_cons m) [ inl e ↦ Memᴰ.head e | inr m' ↦ Memᴰ.tail (from_after j k ks m') ],
  λ m. kept_after j k ks m,
)

with_iff :
    (postcode : Text) (k : AddressKey) (streets : List Text)
    → Memᴰ k (keys_with postcode streets) ↔ ((k.postcode ≡ postcode) × Memᴰ k.street streets)
unfolding keys_with
with_iff postcode k [] = (λ m. absurd (MemD.not-nil m), λ h. absurd (MemD.not-nil h.1))
with_iff postcode k (s ∷ streets) =
    let (a, b) = with_iff postcode k streets in
    (
      λ m. elim (MemD.cases_cons m) [
        | inl e ↦
            (ap (λ (x : AddressKey). x.postcode) e, Memᴰ.head (ap (λ (x : AddressKey). x.street) e))
        | inr m' ↦ let (e, n) = a m' in (e, Memᴰ.tail n)
      ],
      λ h. elim (MemD.cases_cons h.1) [
        | inl e ↦ Memᴰ.head (let f = h.0 in cc)
        | inr n ↦ Memᴰ.tail (b (h.0, n))
      ],
    )

-- A line that gives a street.
abbrev pub Gives : (Text → Option Text) → List Text → Text → Type 0
Gives f lines s = (line : Text) × Memᴰ line lines × (f line ≡ some s)

Gives-later :
    (f : Text → Option Text) (line : Text) (lines : List Text) (s : Text)
    → Gives f lines s
    → Gives f (line ∷ lines) s
Gives-later f line lines s (l, m, e) = (l, Memᴰ.tail m, e)

push_iff :
    (o : Option Text) (s : Text) (streets : List Text)
    → Memᴰ s (push_some o streets) ↔ ((o ≡ some s) ⊎ Memᴰ s streets)
push_iff none s streets = (λ m. inr m, λ h. elim h [ inl e ↦ absurd (cc) | inr m ↦ m ])
push_iff (some t) s streets = (
  λ m. elim (MemD.cases_cons m) [ inl e ↦ inl (ap some (sym e)) | inr m' ↦ inr m' ],
  λ h. elim h [ inl e ↦ Memᴰ.head (cc) | inr m ↦ Memᴰ.tail m ],
)

streets_iff :
    (f : Text → Option Text) (lines : List Text) (s : Text)
    → Memᴰ s (streets_of f lines) ↔ Gives f lines s
unfolding streets_of
streets_iff f [] s =
    (λ m. absurd (MemD.not-nil m), λ h. let (l, m, e) = h in absurd (MemD.not-nil m))
streets_iff f (line ∷ lines) s =
    let (a, b) = streets_iff f lines s in
    let (p, q) = push_iff (f line) s (streets_of f lines) in
    (
      λ m. elim (p m) [
        | inl e ↦ (line, Memᴰ.head refl, e)
        | inr n ↦ Gives-later f line lines s (a n)
      ],
      λ h.
          let (l, m, e) = h in
          q (elim (MemD.cases_cons m) [
            | inl g ↦ inl (ap f (sym g) ∙ e)
            | inr n ↦ inr (b (l, n, e))
          ]),
    )

-- The keys of the streets that lines give, with the postcode.
abbrev pub IsKeyOf : Option Text → (Text → Option Text) → List Text → AddressKey → Type 0
IsKeyOf postcode f lines k = (postcode ≡ some k.postcode) × Gives f lines k.street

pub sorted_keys_iff :
    (postcode : Option Text) (f : Text → Option Text) (lines : List Text) (k : AddressKey)
    → Memᴰ k (sorted_keys postcode (streets_of f lines)) ↔ IsKeyOf postcode f lines k
unfolding sorted_keys
sorted_keys_iff none f lines k = (λ m. absurd (MemD.not-nil m), λ h. let (e, g) = h in absurd (cc))
sorted_keys_iff (some p) f lines k =
    let keys = keys_with p (streets_of f lines) in
    let (a, b) = dedup_iff k (sort_by key_cmp keys) in
    let (c, d) = with_iff p k (streets_of f lines) in
    let (x, y) = streets_iff f lines k.street in
    (
      λ m. let (e, n) = c (sort_by-mem key_cmp k keys (a m)) in (ap some (sym e), x n),
      λ h. let (e, g) = h in b (mem-sort_by key_cmp k keys (d (cc, y g))),
    )

-- A postcode that is given and, trimmed, is of four ASCII digits.
abbrev pub IsPostcode : Option Text → Text → Type 0
IsPostcode postcode p =
    (given : Text) × (postcode ≡ some given)
    × (p ≡ trim given)
    × (length p ≡ 4)
    × (all (λ c. leb b'0' c && leb c b'9') p ≡ true)

pub IsPostcode-iff :
    (postcode : Option Text) (p : Text) → (valid_postcode postcode ≡ some p) ↔ IsPostcode postcode p
unfolding valid_postcode
IsPostcode-iff none p = (λ h. absurd (cc), λ h. absurd (let e = h.1 in cc))
IsPostcode-iff (some given) p =
    elim (Bool-cases (length (trim given) == 4 && all is_ascii_digit (trim given))) [
      | inl e ↦ rw e (
        λ h.
            let q : p ≡ trim given = cc in
            (given, refl, q, rw q (ground arith), rw q (ground arith)),
        λ h. let (g, f, q, l, d) = h in let same : given ≡ g = cc in cc,
      )
      | inr e ↦ rw e (
        λ h. absurd (cc),
        λ h.
            let (g, f, q, l, d) = h in
            let same : given ≡ g = cc in
            let q' : p ≡ trim given = q ∙ ap trim (sym same) in
            let l' : length (trim given) ≡ 4 = rw q' at l in
            let d' : all is_ascii_digit (trim given) ≡ true = rw q' at d in
            absurd (ground (arith, l', d')),
      )
    ]

module _ (u : Unicode) where
  -- A line that names no person and no post box, in which a word has a digit; its words in their
  -- canonical form are the street.
  abbrev pub IsPlainLine : Text → Text → Type 0
  IsPlainLine line street =
      let words = fold_words u line in
      (names_person words ≡ false)
      × (names_box words ≡ false)
      × (any is_numbered words ≡ true)
      × (join (space ∷ []) (push_words [] words) ≡ street)

  street_at :
      (words : List Text) (street : Text)
      → (normalise_street_words words ≡ some street) ↔ (
          (is_postbox words ≡ false)
          × (is_some (first_digit_index words) ≡ true)
          × (join (space ∷ []) (push_words [] words) ≡ street))
  unfolding normalise_street_words
  street_at words street = elim (Bool-cases (is_postbox words)) [
    | inl e ↦ rw e (λ h. absurd (cc), λ h. absurd (let f = h.0 in cc))
    | inr e ↦ elim (Bool-cases (is_some (first_digit_index words))) [
      | inl f ↦ rw (e, f) (λ h. (refl, refl, cc), λ h. ap some h.2)
      | inr f ↦ rw (e, f) (λ h. absurd (cc), λ h. absurd (let g = h.1 in cc))
    ]
  ]

  plain_iff : (line street : Text) → (street_line u line ≡ some street) ↔ IsPlainLine line street
  unfolding street_line
  plain_iff line street =
      let words = fold_words u line in
      let p = is_personal_lem words in
      let b = is_postbox_lem words in
      let d = is_some-first_digit_index words in
      let (f, g) = street_at words street in
      elim (Bool-cases (is_personal words)) [
        | inl e ↦ rw e (λ h. absurd (cc), λ h. absurd (let n = h.0 in cc))
        | inr e ↦ rw e (
          λ h. let (x, y, z) = f h in (sym p ∙ e, sym b ∙ x, sym d ∙ y, z),
          λ h. let (w, x, y, z) = h in g (b ∙ x, d ∙ y, z),
        )
      ]

  -- The keys of a row's lines are exactly those of its lines that name no person and no post box and
  -- have a number, each with the line's words in their canonical form as the street; a line names a
  -- person by "c" before "o", or, if a word has a digit, by "v" before another word; and the row's
  -- postcode, trimmed, is of four digits.
  pub address_keys_iff :
      (lines : List Text) (postcode : Option Text) (k : AddressKey)
      → Memᴰ k (address_keys u lines postcode) ↔ (
          IsPostcode postcode k.postcode
          × ((line : Text) × Memᴰ line lines × IsPlainLine line k.street))
  unfolding address_keys
  address_keys_iff lines postcode k =
      let (a, b) = sorted_keys_iff (valid_postcode postcode) (street_line u) lines k in
      let (c, d) = IsPostcode-iff postcode k.postcode in
      (
        λ m. let (e, (l, n, g)) = a m in (c e, (l, n, (plain_iff l k.street).0 g)),
        λ h. let (e, (l, n, g)) = h in b (d e, (l, n, (plain_iff l k.street).1 g)),
      )
