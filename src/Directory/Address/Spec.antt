-- ===== src/Directory/Address/Spec.antt =====
-- address.rs, `address_spec`: the written address can be read back.
use fau_portalen.Prelude.{
  all-append, ℕ, ◌≡◌, refl, sym, ap, ◌∙◌, some, Bool, true, false, ◌&&◌, List, [], ◌∷◌, ◌++◌, arith,
  ◌==◌, if◌then◌else◌, all, ltb, Bool-cases, Option-cases, inl, inr,
}
use fau_portalen.Text.{
  Text, rsplit_once, rsplit_once-some, rsplit_once-none, has_char, split, on_first,
}
use fau_portalen.Email.{Email}
use fau_portalen.Directory.Address.{address_spec, escaped, is_dot_atom, is_atext, quote_mark}
use fau_portalen.Directory.Address.Reader.{
  read_spec, read_quoted-escaped, is_part, all-are_parts, read_atoms-append,
}

quoted_part : (ws : List Text) → all is_part (on_first quote_mark ws) ≡ false
unfolding is_atext
quoted_part [] = refl
quoted_part (w ∷ ws) = refl

dot_atom_plain : (c : ℕ) (s : Text) → is_dot_atom (c ∷ s) ≡ true → (c == quote_mark) ≡ false
unfolding is_dot_atom split
dot_atom_plain c s h = elim (Bool-cases (c == quote_mark)) [
  | inl e ↦
      let q : c ≡ quote_mark = ground arith in
      let h' : is_dot_atom (quote_mark ∷ s) ≡ true = rw q at h in
      absurd (cc (h', quoted_part (split b'.' s)))
  | inr e ↦ e
]

address_spec_at :
    (e : Email) (local domain : Text)
    → rsplit_once b'@' e.text ≡ some (local, domain)
    → address_spec e
      ≡ some (
          if is_dot_atom local
          then e.text
          else quote_mark ∷ (escaped local ++ (quote_mark ∷ b'@' ∷ domain)))
unfolding address_spec
address_spec_at e local domain q = rw (q, address_spec) refl

-- A Unicode scalar value is below this bound.
abbrev pub is_char : ℕ → Bool
is_char c = ltb c 0x110000

all-escaped : (s : Text) → all is_char s ≡ true → all is_char (escaped s) ≡ true
unfolding escaped
all-escaped [] h = refl
all-escaped (c ∷ s) h = let ih = all-escaped s (ground arith) in ground (arith, ih)

-- The address has an `@`, and its characters are Unicode scalar values, as those of a `String` are.
abbrev pub has_at : Email → Bool
has_at e = has_char b'@' e.text && all is_char e.text

all-quoted :
    (l r : Text)
    → all is_char (l ++ (b'@' ∷ r)) ≡ true
    → all is_char (quote_mark ∷ (escaped l ++ (quote_mark ∷ b'@' ∷ r))) ≡ true
all-quoted l r h =
    let a = all-append is_char l (b'@' ∷ r) in
    let b = all-append is_char (escaped l) (quote_mark ∷ b'@' ∷ r) in
    let c = all-escaped l (ground (arith, a)) in ground (arith, a, b, c)

read_spec-plain :
    (l r : Text) → is_dot_atom l ≡ true → read_spec (l ++ (b'@' ∷ r)) ≡ some (l ++ (b'@' ∷ r))
unfolding is_dot_atom
read_spec-plain [] r t = absurd (cc)
read_spec-plain (c ∷ l) r t =
    let parts : all is_part (split b'.' (c ∷ l)) ≡ true = ground arith in
    unfold read_spec in
    rw (dot_atom_plain c l t)
      (read_atoms-append true (c ∷ l) r (all-are_parts (split b'.' (c ∷ l)) parts))

-- An address with an `@`, of Unicode scalar values, is written in such, and reading what is written as
-- RFC 5322 has it, with a local part in quotes or made of atoms and dots, gives the address back.
pub address_spec-read_spec :
    (e : Email)
    → has_at e ≡ true
    → (spec : Text) × (address_spec e ≡ some spec)
      × (read_spec spec ≡ some e.text)
      × (all is_char spec ≡ true)
address_spec-read_spec e h = elim (Option-cases (rsplit_once b'@' e.text)) [
  | inl n ↦ let no = rsplit_once-none b'@' e.text n in absurd (ground (arith, no))
  | inr ((local, domain), q) ↦
      let whole = (rsplit_once-some b'@' e.text local domain q).0 in
      let chars : all is_char e.text ≡ true = ground arith in
      elim (Bool-cases (is_dot_atom local)) [
        | inl t ↦ (
          e.text,
          address_spec_at e local domain q ∙ rw t refl,
          ap read_spec whole ∙ (read_spec-plain local domain t ∙ ap some (sym whole)),
          ground arith,
        )
        | inr t ↦ (
          quote_mark ∷ (escaped local ++ (quote_mark ∷ b'@' ∷ domain)),
          address_spec_at e local domain q ∙ rw t refl,
          rw whole (unfold read_spec in read_quoted-escaped local domain),
          all-quoted local domain (rw whole at chars),
        )
      ]
]
