-- ===== src/Directory/Address/Unique.antt =====
-- address.rs, `Recipients::new`: each address once.
use fau_portalen.Prelude.{
  ◌≡◌, refl, ap, Bool, true, false, ◌||◌, List, [], ◌∷◌, arith, any, Bool-cases, inl, inr,
}
use fau_portalen.Text.{text_eq_iff}
use fau_portalen.Email.{Email}
use fau_portalen.Directory.Address.{email_eq, first_seen, new_recipients}

-- Some address occurs twice.
unfoldable pub has_repeats : List Email → Bool
has_repeats [] = false
has_repeats (a ∷ as') = any (email_eq a) as' || has_repeats as'

email_eq-≡ : (a b : Email) → email_eq a b ≡ true → a ≡ b
unfolding email_eq
email_eq-≡ a b h = let e = (text_eq_iff a.text b.text).0 h in ap (λ t. record { text = t }) e

email_eq_refl : (a : Email) → email_eq a a ≡ true
unfolding email_eq
email_eq_refl a = (text_eq_iff a.text a.text).1 refl

email_eq_comm : (a b : Email) → email_eq a b ≡ email_eq b a
email_eq_comm a b = elim (Bool-cases (email_eq a b)) [
  | inl e ↦ let q = email_eq-≡ a b e in rw q refl
  | inr e ↦ elim (Bool-cases (email_eq b a)) [
    | inl f ↦ let q = email_eq-≡ b a f in rw q refl
    | inr f ↦ cc
  ]
]

-- What is kept is what was given, less what was seen before.
any-first_seen :
    (e : Email) (seen given : List Email)
    → (any (email_eq e) seen || any (email_eq e) (first_seen seen given))
      ≡ (any (email_eq e) seen || any (email_eq e) given)
unfolding first_seen
any-first_seen e seen [] = refl
any-first_seen e seen (a ∷ given) = elim (Bool-cases (any (email_eq a) seen)) [
  | inl t ↦
      let ih = any-first_seen e seen given in
      elim (Bool-cases (email_eq e a)) [
        | inl p ↦
            let q : any (email_eq e) seen ≡ true = rw (email_eq-≡ e a p) t in ground (arith, q)
        | inr p ↦ ground (arith, ih)
      ]
  | inr t ↦ let ih = any-first_seen e (a ∷ seen) given in ground (arith, ih)
]

-- No address that was seen before is kept.
first_seen-unseen :
    (e : Email) (seen given : List Email)
    → any (email_eq e) seen ≡ true
    → any (email_eq e) (first_seen seen given) ≡ false
unfolding first_seen
first_seen-unseen e seen [] h = refl
first_seen-unseen e seen (a ∷ given) h = elim (Bool-cases (any (email_eq a) seen)) [
  | inl t ↦ ground (arith, first_seen-unseen e seen given h)
  | inr t ↦
      let n : email_eq e a ≡ false = elim (Bool-cases (email_eq e a)) [
        | inl p ↦ let q : any (email_eq a) seen ≡ true = rw (← email_eq-≡ e a p) h in cc
        | inr p ↦ p
      ] in
      ground (arith, first_seen-unseen e (a ∷ seen) given (ground arith))
]

first_seen-has_repeats : (seen given : List Email) → has_repeats (first_seen seen given) ≡ false
unfolding first_seen has_repeats
first_seen-has_repeats seen [] = refl
first_seen-has_repeats seen (a ∷ given) = ground (
  arith,
  first_seen-has_repeats seen given,
  first_seen-has_repeats (a ∷ seen) given,
  first_seen-unseen a (a ∷ seen) given (rw (email_eq_refl a) refl),
)

-- The recipients are the addresses given, each once.
pub new_recipients_lem :
    (given : List Email)
    → (has_repeats (new_recipients given).addresses ≡ false)
      × ((e : Email) → any (email_eq e) (new_recipients given).addresses ≡ any (email_eq e) given)
unfolding new_recipients
new_recipients_lem given = (first_seen-has_repeats [] given, λ e. any-first_seen e [] given)
