-- ===== src/Email/Form.antt =====
-- email.rs, `Email::parse`: which texts it accepts.
use fau_portalen.Prelude.{
  ℕ, ◌≤◌, ◌≡◌, ◌↔◌, refl, sym, ap, Memᴰ, ◌∙◌, none, some, Bool, true, false, ◌||◌, List, [], ◌∷◌,
  ◌++◌, ◌==◌, arith, ltb, is_empty, any, all, ok, Option-cases, Bool-cases, inl, inr,
}
use fau_portalen.Email.Label.{IsLabel, all-IsLabel}
use fau_portalen.Text.{
  Text, Unicode, trim, is_whitespace, is_control, len_bytes, has_char, rsplit_once,
  rsplit_once-some, rsplit_once-append, split, on_first,
}
use fau_portalen.Email.{
  Email, starts_with, ends_with, max_len, is_domain_label, parts_ok, parse_email,
}

abbrev is_bad : ℕ → Bool
is_bad c = is_whitespace c || is_control c

-- An address: at most 254 bytes, one `@` with something before it, no white space and no control
-- character; the domain has a dot and is made of labels.
pub record IsAddress (u : Unicode) (s local domain : Text) : Type 0 where
  whole : s ≡ local ++ (b'@' ∷ domain)
  short : len_bytes s ≤ max_len
  clean : any is_bad s ≡ false
  named : is_empty local ≡ false
  one_at : (has_char b'@' local ≡ false) × (has_char b'@' domain ≡ false)
  dotted : has_char b'.' domain ≡ true
  labels : (w : Text) → Memᴰ w (split b'.' domain) → IsLabel u w

-- A piece after the first is empty.
abbrev later_empty : List Text → Bool
later_empty [] = false
later_empty (w ∷ ws) = any is_empty ws

-- A text that begins or ends with the separator has an empty piece, which is no label.
dot_start :
    (u : Unicode) (d : Text)
    → all (is_domain_label u) (split b'.' d) ≡ true
    → starts_with b'.' d ≡ false
unfolding split is_domain_label
dot_start u [] h = refl
dot_start u (c ∷ d) h = ground arith

any-on_first : (c : ℕ) (ws : List Text) → later_empty ws ≡ true → later_empty (on_first c ws) ≡ true
any-on_first c [] h = absurd (cc)
any-on_first c (w ∷ ws) h = h

later_empty-any : (ws : List Text) → later_empty ws ≡ true → any is_empty ws ≡ true
later_empty-any [] h = absurd (cc)
later_empty-any (w ∷ ws) h = ground (arith, h)

ends_with-later_empty : (d : Text) → ends_with b'.' d ≡ true → later_empty (split b'.' d) ≡ true
unfolding split
ends_with-later_empty [] h = absurd (cc)
ends_with-later_empty (c ∷ []) h = rw h refl
ends_with-later_empty (c ∷ e ∷ d) h =
    let ih = ends_with-later_empty (e ∷ d) h in
    elim (Bool-cases (c == b'.')) [
      | inl t ↦ rw t (later_empty-any (split b'.' (e ∷ d)) ih)
      | inr t ↦ rw t (any-on_first c (split b'.' (e ∷ d)) ih)
    ]

labels_nonempty :
    (u : Unicode) (ws : List Text) → all (is_domain_label u) ws ≡ true → any is_empty ws ≡ false
unfolding is_domain_label
labels_nonempty u [] h = refl
labels_nonempty u (w ∷ ws) h = let ih = labels_nonempty u ws (ground arith) in ground (arith, ih)

dot_end :
    (u : Unicode) (d : Text)
    → all (is_domain_label u) (split b'.' d) ≡ true
    → ends_with b'.' d ≡ false
dot_end u d h = elim (Bool-cases (ends_with b'.' d)) [
  | inl t ↦ absurd (
      cc (
        labels_nonempty u (split b'.' d) h,
        later_empty-any (split b'.' d) (ends_with-later_empty d t),
      ))
  | inr f ↦ f
]

-- The guards of `parse`, in the order in which it makes them.
parse_email_at :
    (u : Unicode) (raw : Text)
    → (parse_email u raw ≡ ok (record { text = u.to_lowercase (trim raw) })) ↔ (
        (is_empty (trim raw) ≡ false)
        × (ltb max_len (len_bytes (trim raw)) ≡ false)
        × (any is_bad (trim raw) ≡ false)
        × (parts_ok u (rsplit_once b'@' (trim raw)) ≡ true))
unfolding parse_email
parse_email_at u raw = ground arith

parts_ok_at :
    (u : Unicode) (local domain : Text)
    → (parts_ok u (some (local, domain)) ≡ true) ↔ (
        (is_empty local ≡ false)
        × (has_char b'@' local ≡ false)
        × (has_char b'.' domain ≡ true)
        × (starts_with b'.' domain ≡ false)
        × (ends_with b'.' domain ≡ false)
        × (all (is_domain_label u) (split b'.' domain) ≡ true))
unfolding parts_ok
parts_ok_at u local domain = ground arith

filled : (l : Text) (c : ℕ) (r : Text) → is_empty (l ++ (c ∷ r)) ≡ false
filled [] c r = refl
filled (x ∷ l) c r = refl

-- Only the trimmed text in lower case is stored.
stored :
    (u : Unicode) (raw : Text) (e : Email)
    → parse_email u raw ≡ ok e
    → e ≡ record { text = u.to_lowercase (trim raw) }
unfolding parse_email
stored u raw e h = ground (arith, h)

is_address :
    (u : Unicode) (raw : Text)
    → parse_email u raw ≡ ok (record { text = u.to_lowercase (trim raw) })
    → (local : Text) × (domain : Text) × IsAddress u (trim raw) local domain
is_address u raw h =
    let (a, b, c, d) = (parse_email_at u raw).0 h in
    elim (Option-cases (rsplit_once b'@' (trim raw))) [
      | inl n ↦ absurd (nothing (rw n at d))
      | inr ((l, r), e) ↦
          let (w, last) = rsplit_once-some b'@' (trim raw) l r e in
          let (p, q, s, t, v, x) = (parts_ok_at u l r).0 (rw e at d) in
          (
            l,
            r,
            record {
              whole = w;
              short = ground arith;
              clean = c;
              named = p;
              one_at = (q, last);
              dotted = s;
              labels = (all-IsLabel u (split b'.' r)).0 x;
            },
          )
    ]
  where
    nothing : parts_ok u none ≡ true → ⊥
    nothing k = unfold parts_ok in cc

accepted :
    (u : Unicode) (raw local domain : Text)
    → IsAddress u (trim raw) local domain
    → parse_email u raw ≡ ok (record { text = u.to_lowercase (trim raw) })
accepted u raw l r a =
    let labels = (all-IsLabel u (split b'.' r)).1 a.labels in
    let found = ap (rsplit_once b'@') a.whole ∙ rsplit_once-append b'@' l r a.one_at.1 in
    (parse_email_at u raw).1 (
      rw a.whole (filled l b'@' r),
      ground (arith, a.short),
      a.clean,
      rw found (
          (parts_ok_at u l r).1
            (a.named, a.one_at.0, a.dotted, dot_start u r labels, dot_end u r labels, labels)),
    )

-- A text is accepted, with some result, exactly when it is an address once trimmed, and the result is
-- then that whole address in lower case.
pub parse_email_iff :
    (u : Unicode) (raw : Text) (e : Email)
    → (parse_email u raw ≡ ok e) ↔ (
        ((local : Text) × (domain : Text) × IsAddress u (trim raw) local domain)
        × (e ≡ record { text = u.to_lowercase (trim raw) }))
parse_email_iff u raw e = (
  λ h. let q = stored u raw e h in (is_address u raw (h ∙ ap ok q), q),
  λ a. let ((l, r, b), q) = a in accepted u raw l r b ∙ ap ok (sym q),
)
