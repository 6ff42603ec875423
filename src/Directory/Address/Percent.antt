-- ===== src/Directory/Address/Percent.antt =====
-- address.rs, `percent_encode`: a strict decoder reads it.
use fau_portalen.Prelude.{
  ℕ, ◌+◌, ◌-◌, ◌*◌, ◌/◌, ◌%◌, ◌<◌, ◌≡◌, refl, ap, ◌∙◌, Option, none, some, Bool, true, ◌&&◌, ◌||◌,
  leb, false, List, [], ◌∷◌, arith, ◌==◌, ltb, if◌then◌else◌, all, all-append, Bool-cases, inl, inr,
}
use fau_portalen.Text.{Text, has_char}
use fau_portalen.Directory.Address.{is_kept, hex_digit, percent_bytes, percent_encode, utf8, bytes}
use fau_portalen.Directory.Address.Spec.{is_char}

-- RFC 3986: the value of a hexadecimal digit, and the characters that stand for themselves: the
-- unreserved ones, and `@`.
unfoldable pub hex_value : ℕ → Option ℕ
hex_value c =
    if leb 48 c && leb c 57
    then some (c - 48)
    else if leb 65 c && leb c 70
    then some (c - 55)
    else none

abbrev pub is_unreserved : ℕ → Bool
is_unreserved c =
    (leb b'0' c && leb c b'9')
    || (leb b'A' c && leb c b'Z')
    || (leb b'a' c && leb c b'z')
    || c == b'-'
    || c == b'.'
    || c == b'_'
    || c == b'~'
    || c == b'@'

abbrev push : ℕ → Option (List ℕ) → Option (List ℕ)
push c none = none
push c (some s) = some (c ∷ s)

abbrev push_byte : Option ℕ → Option ℕ → Option (List ℕ) → Option (List ℕ)
push_byte (some hi) (some lo) (some s) = some ((16 * hi + lo) ∷ s)
push_byte (some hi) (some lo) none = none
push_byte (some hi) none s = none
push_byte none lo s = none

-- The bytes of a text with percent-encoded bytes; a text with any other character that has to be
-- encoded is not read.
unfoldable pub percent_decode : Text → Option (List ℕ)
percent_decode [] = some []
percent_decode (c ∷ []) = if is_unreserved c then some (c ∷ []) else none
percent_decode (c ∷ d ∷ []) =
    let rest = percent_decode (d ∷ []) in if is_unreserved c then push c rest else none
percent_decode (c ∷ d ∷ e ∷ s) =
    let rest = percent_decode (d ∷ e ∷ s) in
    let byte = push_byte (hex_value d) (hex_value e) (percent_decode s) in
    if is_unreserved c then push c rest else if c == b'%' then byte else none

percent_decode_plain :
    (c : ℕ) (s : Text) → is_unreserved c ≡ true → percent_decode (c ∷ s) ≡ push c (percent_decode s)
unfolding percent_decode
percent_decode_plain c [] h = rw h refl
percent_decode_plain c (d ∷ []) h = rw h refl
percent_decode_plain c (d ∷ e ∷ s) h = rw h refl

hex_value-hex_digit : (n : ℕ) → n < 16 → hex_value (hex_digit n) ≡ some n
unfolding hex_value
hex_value-hex_digit n h = ground arith

percent_decode_byte :
    (b : ℕ) (s : Text)
    → b < 256
    → percent_decode (b'%' ∷ hex_digit (b / 16) ∷ hex_digit (b % 16) ∷ s)
      ≡ push b (percent_decode s)
unfolding percent_decode
percent_decode_byte b s h =
    let hi = hex_value-hex_digit (b / 16) (omega arith) in
    let lo = hex_value-hex_digit (b % 16) (omega arith) in
    let v : 16 * (b / 16) + b % 16 ≡ b = omega arith in rw (hi, lo) (pushed (percent_decode s) v)
  where
    pushed :
        (o : Option (List ℕ))
        → 16 * (b / 16) + b % 16 ≡ b
        → push_byte (some (b / 16)) (some (b % 16)) o ≡ push b o
    pushed none v = refl
    pushed (some t) v = ap (λ n. some (n ∷ t)) v

is_kept-is_unreserved : (b : ℕ) → is_kept b ≡ true → is_unreserved b ≡ true
unfolding is_kept
is_kept-is_unreserved b h = ground arith

percent_decode-percent_bytes :
    (bs : List ℕ) → all (λ b. ltb b 256) bs ≡ true → percent_decode (percent_bytes bs) ≡ some bs
unfolding percent_bytes
percent_decode-percent_bytes [] h = unfold percent_decode in refl
percent_decode-percent_bytes (b ∷ bs) h =
    let ih = ap (push b) (percent_decode-percent_bytes bs (ground arith)) in
    elim (Bool-cases (is_kept b)) [
      | inl k ↦ rw k (percent_decode_plain b (percent_bytes bs) (is_kept-is_unreserved b k) ∙ ih)
      | inr k ↦ rw k (percent_decode_byte b (percent_bytes bs) (ground arith) ∙ ih)
    ]

kept_no_comma : (b : ℕ) → is_kept b ≡ true → (b == b',') ≡ false
unfolding is_kept
kept_no_comma b h = ground arith

no_comma : (bs : List ℕ) → all (λ b. ltb b 256) bs ≡ true → has_char b',' (percent_bytes bs) ≡ false
unfolding percent_bytes
no_comma [] h = refl
no_comma (b ∷ bs) h =
    let ih = no_comma bs (ground arith) in
    elim (Bool-cases (is_kept b)) [
      | inl k ↦ rw k (ground (arith, kept_no_comma b k, ih))
      | inr k ↦ rw k (ground (arith, ih))
    ]

utf8-bytes : (c : ℕ) → is_char c ≡ true → all (λ b. ltb b 256) (utf8 c) ≡ true
unfolding utf8
utf8-bytes c h = ground arith

bytes-bytes : (s : Text) → all is_char s ≡ true → all (λ b. ltb b 256) (bytes s) ≡ true
unfolding bytes
bytes-bytes [] h = refl
bytes-bytes (c ∷ s) h =
    all-append (λ b. ltb b 256) (utf8 c) (bytes s)
    ∙ rw (utf8-bytes c (ground arith), bytes-bytes s (ground arith)) refl

-- Decoding what `percent_encode` writes gives the text's bytes.
pub percent_decode-percent_encode :
    (s : Text) → all is_char s ≡ true → percent_decode (percent_encode s) ≡ some (bytes s)
unfolding percent_encode
percent_decode-percent_encode s h = percent_decode-percent_bytes (bytes s) (bytes-bytes s h)

pub encode_no_comma : (s : Text) → all is_char s ≡ true → has_char b',' (percent_encode s) ≡ false
unfolding percent_encode
encode_no_comma s h = no_comma (bytes s) (bytes-bytes s h)
