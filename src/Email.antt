-- ===== src/Email.antt =====
-- email.rs: e-mail addresses, trimmed, checked and lower-cased.
pub mod Label
pub mod Form
use fau_portalen.Prelude.{
  ℕ, Result, ok, ◌>>◌, refuse_if, Option, none, some, Bool, false, ◌&&◌, ◌||◌, not, ltb, ◌==◌,
  is_empty, any, all, [], ◌∷◌,
}
use fau_portalen.Text.{
  Text, Unicode, trim, is_whitespace, is_control, len_bytes, has_char, rsplit_once, split,
}

pub record Email : Type 0 where
  pub text : Text

-- Made only of an address that the identity provider has verified.
pub record VerifiedEmail : Type 0 where
  pub email : Email

pub data EmailError : Type 0 where
  empty too_long malformed : EmailError

-- `starts_with` and `ends_with` at a character.
abbrev pub starts_with : ℕ → Text → Bool
starts_with c [] = false
starts_with c (d ∷ s) = d == c

abbrev pub ends_with : ℕ → Text → Bool
ends_with c [] = false
ends_with c (d ∷ []) = d == c
ends_with c (d ∷ e ∷ s) = ends_with c (e ∷ s)

abbrev pub max_len : ℕ
max_len = 254

module _ (u : Unicode) where
  unfoldable pub is_domain_label : Text → Bool
  is_domain_label label =
      not (is_empty label)
      && (not (starts_with b'-' label)
          && (not (ends_with b'-' label) && all (λ c. u.is_alphanumeric c || c == b'-') label))

  -- `ok_or(EmailError::Malformed)` and the conditions on the two parts.
  unfoldable pub parts_ok : Option (Text × Text) → Bool
  unfolding is_domain_label
  parts_ok none = false
  parts_ok (some (local, domain)) = not (
      is_empty local
      || (has_char b'@' local
          || (not (has_char b'.' domain)
              || (starts_with b'.' domain
                  || (ends_with b'.' domain || not (all is_domain_label (split b'.' domain)))))))

  unfoldable pub parse_email : Text → Result EmailError Email
  unfolding parts_ok
  parse_email raw =
      let s = trim raw in
      do
        refuse_if (is_empty s) empty
        refuse_if (ltb max_len (len_bytes s)) too_long
        refuse_if (any (λ c. is_whitespace c || is_control c) s) malformed
        refuse_if (not (parts_ok (rsplit_once b'@' s))) malformed
        ok (record { text = u.to_lowercase s })

unfoldable pub from_provider : Email → VerifiedEmail
from_provider email = record { email = email }
