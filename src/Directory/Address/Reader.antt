-- ===== src/Directory/Address/Reader.antt =====
-- address.rs: a reader of addresses by RFC 5322, against which `address_spec` is proved.
use fau_portalen.Prelude.{
  ℕ, ◌≡◌, refl, ap, ◌∙◌, Option, none, some, leb, Bool, true, false, ◌&&◌, ◌||◌, List, [], ◌∷◌,
  ◌++◌, arith, ◌==◌, if◌then◌else◌, all, ltb, not, is_empty, Bool-cases, inl, inr,
}
use fau_portalen.Text.{
  Text, has_char, split, on_first, codes, is_ascii_alphanumeric, is_ascii_digit, is_ascii_lowercase,
  is_ascii_uppercase,
}
use fau_portalen.Directory.Address.{escaped, is_atext, quote_mark, backslash}

-- RFC 5322 and 6531: a character of an atom is a printable one that is none of the specials, or one
-- that is not ASCII.
abbrev pub is_special : ℕ → Bool
is_special c =
    c == b'('
    || c == b')'
    || c == b'<'
    || c == b'>'
    || c == b'['
    || c == b']'
    || c == b':'
    || c == b';'
    || c == b'@'
    || c == b','
    || c == b'.'
    || c == quote_mark
    || c == backslash

abbrev pub is_atom_char : ℕ → Bool
is_atom_char c = leb 128 c || (ltb 32 c && ltb c 127 && not (is_special c))

abbrev pub push : ℕ → Option Text → Option Text
push c none = none
push c (some s) = some (c ∷ s)

-- A reader of addresses. A local part in quotes is read to the closing quote, which an `@` follows,
-- and a backslash stands before a character that counts as itself.
unfoldable pub read_quoted : Text → Option Text
read_quoted [] = none
read_quoted (c ∷ []) = none
read_quoted (c ∷ d ∷ s) =
    let plain = read_quoted (d ∷ s) in
    let spelled = read_quoted s in
    if c == quote_mark
    then (if d == b'@' then some (d ∷ s) else none)
    else if c == backslash
    then push d spelled
    else push c plain

-- One without quotes is read as atoms with a dot between each two, up to the `@`; `start` says that an
-- atom has to begin here. What is no such thing is not read.
unfoldable pub read_atoms : Bool → Text → Option Text
read_atoms start [] = none
read_atoms start (c ∷ s) =
    let next = read_atoms true s in
    let more = read_atoms false s in
    if is_atom_char c
    then push c more
    else if start
    then none
    else if c == b'.'
    then push c next
    else if c == b'@'
    then some (c ∷ s)
    else none

unfoldable pub read_spec : Text → Option Text
read_spec [] = none
read_spec (c ∷ s) = if c == quote_mark then read_quoted s else read_atoms true (c ∷ s)

pub read_quoted_plain :
    (c : ℕ) (xs : Text) (d : ℕ) (t : Text)
    → (c == quote_mark || c == backslash) ≡ false
    → read_quoted (c ∷ (xs ++ (d ∷ t))) ≡ push c (read_quoted (xs ++ (d ∷ t)))
unfolding read_quoted
read_quoted_plain c [] d t h = ground arith
read_quoted_plain c (x ∷ xs) d t h = ground arith

pub read_quoted_spelled :
    (c : ℕ) (s : Text) → read_quoted (backslash ∷ c ∷ s) ≡ push c (read_quoted s)
unfolding read_quoted
read_quoted_spelled c s = refl

escaped-∷ :
    (c : ℕ) (s : Text)
    → escaped (c ∷ s)
      ≡ (if c == quote_mark || c == backslash then backslash ∷ c ∷ escaped s else c ∷ escaped s)
unfolding escaped
escaped-∷ c s = refl

pub read_quoted-escaped :
    (s t : Text) → read_quoted (escaped s ++ (quote_mark ∷ b'@' ∷ t)) ≡ some (s ++ (b'@' ∷ t))
read_quoted-escaped [] t = unfold read_quoted escaped in refl
read_quoted-escaped (c ∷ s) t =
    let ih = ap (push c) (read_quoted-escaped s t) in
    rw (escaped-∷ c s) (elim (Bool-cases (c == quote_mark || c == backslash)) [
      | inl e ↦ rw e (read_quoted_spelled c (escaped s ++ (quote_mark ∷ b'@' ∷ t)) ∙ ih)
      | inr e ↦ rw e (read_quoted_plain c (escaped s) quote_mark (b'@' ∷ t) e ∙ ih)
    ])

plain_range : (c : ℕ) → (leb 48 c && leb c 57) ≡ true → is_atom_char c ≡ true
plain_range c h = ground arith

upper_range : (c : ℕ) → is_ascii_uppercase c ≡ true → is_atom_char c ≡ true
upper_range c h = ground arith

lower_range : (c : ℕ) → is_ascii_lowercase c ≡ true → is_atom_char c ≡ true
lower_range c h = ground arith

alphanumeric_atom : (c : ℕ) → is_ascii_alphanumeric c ≡ true → is_atom_char c ≡ true
alphanumeric_atom c h = elim (Bool-cases (is_ascii_digit c)) [
  | inl d ↦ plain_range c d
  | inr d ↦ elim (Bool-cases (is_ascii_lowercase c)) [
    | inl l ↦ lower_range c l
    | inr l ↦ upper_range c (rw (d, l) at h)
  ]
]

has_char-all : (p : ℕ → Bool) (c : ℕ) (s : Text) → has_char c s ≡ true → all p s ≡ true → p c ≡ true
has_char-all p c [] h k = absurd (cc)
has_char-all p c (d ∷ s) h k = elim (Bool-cases (d == c)) [
  | inl e ↦ let q : d ≡ c = ground arith in rw (← q) (ground arith)
  | inr e ↦ has_char-all p c s (ground arith) (ground arith)
]

is_atext-is_atom_char : (c : ℕ) → is_atext c ≡ true → is_atom_char c ≡ true
unfolding is_atext
is_atext-is_atom_char c h = elim (Bool-cases (is_ascii_alphanumeric c)) [
  | inl a ↦ alphanumeric_atom c a
  | inr a ↦ elim (Bool-cases (leb 128 c)) [
    | inl b ↦ rw b refl
    | inr b ↦
        has_char-all is_atom_char c (codes "!#$%&'*+-/=?^_`{|}~") (in_list _ (rw (a, b) at h)) refl
  ]
]
  where
    in_list : (x : Bool) → (x || false) ≡ true → x ≡ true
    in_list true k = refl
    in_list false k = k

abbrev pub is_part : Text → Bool
is_part part = not (is_empty part) && all is_atext part

-- The pieces between the dots, of which the first may be the rest of an atom.
abbrev are_parts : Bool → List Text → Bool
are_parts start [] = true
are_parts true (w ∷ ws) = is_part w && all is_part ws
are_parts false (w ∷ ws) = all is_atext w && all is_part ws

pub all-are_parts : (ws : List Text) → all is_part ws ≡ true → are_parts true ws ≡ true
all-are_parts [] h = refl
all-are_parts (w ∷ ws) h = h

are_parts-on_first :
    (start : Bool) (c : ℕ) (ws : List Text)
    → are_parts start (on_first c ws) ≡ true
    → (is_atext c ≡ true) × (are_parts false ws ≡ true)
are_parts-on_first true c [] h = (ground arith, refl)
are_parts-on_first false c [] h = (ground arith, refl)
are_parts-on_first true c (w ∷ ws) h = (ground arith, ground arith)
are_parts-on_first false c (w ∷ ws) h = (ground arith, ground arith)

read_atoms_char :
    (start : Bool) (c : ℕ) (s : Text)
    → is_atom_char c ≡ true
    → read_atoms start (c ∷ s) ≡ push c (read_atoms false s)
unfolding read_atoms
read_atoms_char start c s h = rw h refl

read_atoms_dot :
    (start : Bool) (c : ℕ) (s t : Text) (ws : List Text)
    → are_parts start ([] ∷ ws) ≡ true
    → c ≡ b'.'
    → read_atoms true s ≡ some t
    → read_atoms start (c ∷ s) ≡ some (c ∷ t)
read_atoms_dot true c s t ws k q ih = absurd (cc)
read_atoms_dot false c s t ws k q ih = rw q (unfold read_atoms in ap (push b'.') ih)

after_dot :
    (start : Bool) (ws : List Text) → are_parts start ([] ∷ ws) ≡ true → are_parts true ws ≡ true
after_dot true ws h = absurd (cc)
after_dot false [] h = refl
after_dot false (w ∷ ws) h = h

pub read_atoms-append :
    (start : Bool) (l r : Text)
    → are_parts start (split b'.' l) ≡ true
    → read_atoms start (l ++ (b'@' ∷ r)) ≡ some (l ++ (b'@' ∷ r))
unfolding split
read_atoms-append true [] r h = absurd (cc)
read_atoms-append false [] r h = unfold read_atoms in refl
read_atoms-append start (c ∷ l) r h = elim (Bool-cases (c == b'.')) [
  | inl e ↦
      let k = rw e at h in
      read_atoms_dot start c _ _ (split b'.' l) k (ground arith)
        (read_atoms-append true l r (after_dot start (split b'.' l) k))
  | inr e ↦
      let (a, more) = are_parts-on_first start c (split b'.' l) (rw e at h) in
      read_atoms_char start c (l ++ (b'@' ∷ r)) (is_atext-is_atom_char c a)
      ∙ ap (push c) (read_atoms-append false l r more)
]
