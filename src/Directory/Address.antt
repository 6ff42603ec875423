-- ===== src/Directory/Address.antt =====
-- directory/address.rs: a selection of addresses as a `mailto:` link or as a text to copy. A call that
-- would panic at `expect` is `none`.
pub mod Reader
pub mod Spec
pub mod Percent
pub mod Link
pub mod Unique
use fau_portalen.Prelude.{
  ℕ, ◌+◌, ◌/◌, ◌%◌, Option, none, some, Bool, true, false, ◌&&◌, ◌||◌, not, List, [], ◌∷◌, ◌++◌,
  map, ltb, leb, ◌==◌, if◌then◌else◌, any, all, length, is_empty,
}
use fau_portalen.Text.{
  Text, codes, split, join, rsplit_once, has_char, text_eq, len_bytes, is_ascii_alphanumeric,
}
use fau_portalen.Email.{Email}

abbrev pub bcc_above : ℕ
bcc_above = 10

abbrev pub mailto_max_chars : ℕ
mailto_max_chars = 1800

pub data RecipientField : Type 0 where
  to bcc : RecipientField

unfoldable pub default_for : ℕ → RecipientField
default_for count = if ltb bcc_above count then RecipientField.bcc else RecipientField.to

pub data CopySeparator : Type 0 where
  comma semicolon : CopySeparator

unfoldable pub separator_text : CopySeparator → Text
separator_text CopySeparator.comma = codes ", "
separator_text CopySeparator.semicolon = codes "; "

pub data Mailto : Type 0 where
  link : Text → Mailto
  too_long : ℕ → Mailto

-- `is_atext`; a character that is not ASCII passes.
unfoldable pub is_atext : ℕ → Bool
is_atext c = is_ascii_alphanumeric c || (has_char c (codes "!#$%&'*+-/=?^_`{|}~") || leb 128 c)

unfoldable pub is_dot_atom : Text → Bool
is_dot_atom s =
    not (is_empty s) && all (λ part. not (is_empty part) && all is_atext part) (split b'.' s)

abbrev pub quote_mark : ℕ
quote_mark = 34

abbrev pub backslash : ℕ
backslash = 92

-- The loop over the local part's characters.
unfoldable pub escaped : Text → Text
escaped [] = []
escaped (c ∷ s) =
    let rest = c ∷ escaped s in if c == quote_mark || c == backslash then backslash ∷ rest else rest

unfoldable pub address_spec : Email → Option Text
address_spec address = elim (rsplit_once b'@' address.text) [
  | none ↦ none
  | some (local, domain) ↦ some (
      if is_dot_atom local
      then address.text
      else quote_mark ∷ (escaped local ++ (quote_mark ∷ b'@' ∷ domain)))
]

-- `str::bytes`: the characters in UTF-8.
unfoldable pub utf8 : ℕ → List ℕ
utf8 c =
    if ltb c 0x80
    then c ∷ []
    else if ltb c 0x800
    then (0xc0 + c / 64) ∷ (0x80 + c % 64) ∷ []
    else if ltb c 0x10000
    then (0xe0 + c / 4096) ∷ (0x80 + c / 64 % 64) ∷ (0x80 + c % 64) ∷ []
    else (0xf0 + c / 262144) ∷ (0x80 + c / 4096 % 64) ∷ (0x80 + c / 64 % 64) ∷ (0x80 + c % 64) ∷ []

unfoldable pub bytes : Text → List ℕ
bytes [] = []
bytes (c ∷ s) = utf8 c ++ bytes s

unfoldable pub is_kept : ℕ → Bool
is_kept b = is_ascii_alphanumeric b || has_char b (codes "-._~@")

-- A digit of `{b:02X}`.
abbrev pub hex_digit : ℕ → ℕ
hex_digit n = if ltb n 10 then 48 + n else 55 + n

unfoldable pub percent_bytes : List ℕ → Text
percent_bytes [] = []
percent_bytes (b ∷ bs) =
    let rest = percent_bytes bs in
    if is_kept b then b ∷ rest else b'%' ∷ hex_digit (b / 16) ∷ hex_digit (b % 16) ∷ rest

unfoldable pub percent_encode : Text → Text
percent_encode s = percent_bytes (bytes s)

-- The addresses of one selection.
pub record Recipients : Type 0 where
  pub addresses : List Email

unfoldable pub email_eq : Email → Email → Bool
email_eq a b = text_eq a.text b.text

-- The filter with the set `seen`, into which a new address goes.
unfoldable pub first_seen : List Email → List Email → List Email
first_seen seen [] = []
first_seen seen (a ∷ as') =
    let kept = a ∷ first_seen (a ∷ seen) as' in
    let skipped = first_seen seen as' in if any (email_eq a) seen then skipped else kept

unfoldable pub new_recipients : List Email → Recipients
new_recipients given = record { addresses = first_seen [] given }

unfoldable pub default_field : Recipients → RecipientField
default_field r = default_for (length r.addresses)

-- `map(address_spec)` over the addresses.
unfoldable pub address_specs : List Email → Option (List Text)
address_specs [] = some []
address_specs (a ∷ as') = elim (address_spec a) [
  | none ↦ none
  | some spec ↦ elim (address_specs as') [ none ↦ none | some specs ↦ some (spec ∷ specs) ]
]

unfoldable pub link_prefix : RecipientField → Text
link_prefix RecipientField.to = codes "mailto:"
link_prefix RecipientField.bcc = codes "mailto:?bcc="

unfoldable pub link_of : RecipientField → List Text → Text
link_of field specs = link_prefix field ++ join (b',' ∷ []) (map percent_encode specs)

unfoldable pub within_limit : Text → Mailto
within_limit url =
    if ltb mailto_max_chars (len_bytes url)
    then Mailto.too_long (len_bytes url)
    else Mailto.link url

unfoldable pub mailto : Recipients → RecipientField → Option Mailto
mailto r field = elim (address_specs r.addresses) [
  | none ↦ none
  | some specs ↦ some (within_limit (link_of field specs))
]

unfoldable pub copy_text : Recipients → CopySeparator → Option Text
copy_text r sep = elim (address_specs r.addresses) [
  | none ↦ none
  | some specs ↦ some (join (separator_text sep) specs)
]
