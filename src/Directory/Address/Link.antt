-- ===== src/Directory/Address/Link.antt =====
-- address.rs, `mailto`: what a mail client reads in the link.
use fau_portalen.Prelude.{
  ℕ, ◌≤◌, ◌<◌, ◌≡◌, ◌⊎◌, ◌≢◌, refl, sym, ap, ◌∙◌, Option, none, some, true, false, not, List, [],
  ◌∷◌, ◌++◌, map, arith, ◌==◌, ltb, if◌then◌else◌, all, Bool-cases, inl, inr,
}
use fau_portalen.Text.{Text, has_char, split, split-join, join, len_bytes}
use fau_portalen.Email.{Email}
use fau_portalen.Directory.Address.{
  RecipientField, Recipients, Mailto, percent_encode, bytes, address_spec, address_specs,
  link_prefix, link_of, within_limit, mailto, mailto_max_chars,
}
use fau_portalen.Directory.Address.Reader.{read_spec}
use fau_portalen.Directory.Address.Spec.{is_char, has_at, address_spec-read_spec}
use fau_portalen.Directory.Address.Percent.{
  percent_decode, percent_decode-percent_encode, encode_no_comma,
}

-- A mail client's reading of a link: the fixed beginning is dropped, what follows is split at commas,
-- and each piece is percent-decoded; where one of them cannot be, the link is not read.
drop_prefix : Text → Text → Option Text
drop_prefix [] s = some s
drop_prefix (c ∷ p) [] = none
drop_prefix (c ∷ p) (d ∷ s) = let rest = drop_prefix p s in if c == d then rest else none

unfoldable pub decode_all : List Text → Option (List (List ℕ))
decode_all [] = some []
decode_all (w ∷ ws) = elim (percent_decode w) [
  | none ↦ none
  | some bs ↦ elim (decode_all ws) [ none ↦ none | some bss ↦ some (bs ∷ bss) ]
]

unfoldable pub read_link : RecipientField → Text → Option (List (List ℕ))
unfolding drop_prefix
read_link field url = elim (drop_prefix (link_prefix field) url) [
  | none ↦ none
  | some list ↦ decode_all (split b',' list)
]

drop_prefix-append : (p s : Text) → drop_prefix p (p ++ s) ≡ some s
unfolding drop_prefix
drop_prefix-append [] s = refl
drop_prefix-append (c ∷ p) s = let ih = drop_prefix-append p s in ground (arith, ih)

encoded_no_commas :
    (specs : List Text)
    → all (all is_char) specs ≡ true
    → all (λ w. not (has_char b',' w)) (map percent_encode specs) ≡ true
encoded_no_commas [] h = refl
encoded_no_commas (s ∷ specs) h =
    let ih = encoded_no_commas specs (ground arith) in
    let no = encode_no_comma s (ground arith) in rw no (rw ih refl)

decode_all-∷ :
    (w : Text) (ws : List Text) (bs : List ℕ) (bss : List (List ℕ))
    → percent_decode w ≡ some bs
    → decode_all ws ≡ some bss
    → decode_all (w ∷ ws) ≡ some (bs ∷ bss)
unfolding decode_all
decode_all-∷ w ws bs bss a b = rw (a, b, decode_all) refl

decoded :
    (specs : List Text)
    → all (all is_char) specs ≡ true
    → decode_all (map percent_encode specs) ≡ some (map bytes specs)
unfolding decode_all
decoded [] h = refl
decoded (s ∷ specs) h =
    decode_all-∷ (percent_encode s) (map percent_encode specs) (bytes s) (map bytes specs)
      (percent_decode-percent_encode s (ground arith)) (decoded specs (ground arith))

read_link-drop :
    (field : RecipientField) (list : Text)
    → read_link field (link_prefix field ++ list) ≡ decode_all (split b',' list)
unfolding read_link
read_link-drop field list = rw (drop_prefix-append (link_prefix field) list, read_link) refl

read_link-link_of :
    (field : RecipientField) (specs : List Text)
    → specs ≢ []
    → all (all is_char) specs ≡ true
    → read_link field (link_of field specs) ≡ some (map bytes specs)
unfolding link_of
read_link-link_of field [] n h = absurd (n refl)
read_link-link_of field (s ∷ specs) n h =
    read_link-drop field (join (b',' ∷ []) (map percent_encode (s ∷ specs)))
    ∙ ap decode_all (
        split-join b',' (map percent_encode (s ∷ specs)) (λ e. cc)
          (encoded_no_commas (s ∷ specs) h))
    ∙ decoded (s ∷ specs) h

address_specs-∷ :
    (e : Email) (es : List Email) (spec : Text) (specs : List Text)
    → address_spec e ≡ some spec
    → address_specs es ≡ some specs
    → address_specs (e ∷ es) ≡ some (spec ∷ specs)
unfolding address_specs
address_specs-∷ e es spec specs a b = rw (a, b, address_specs) refl

-- Addresses with an `@` are all written.
address_specs-some :
    (es : List Email)
    → all has_at es ≡ true
    → (specs : List Text) × (address_specs es ≡ some specs)
      × (map read_spec specs ≡ map (λ (e : Email). some e.text) es)
      × (all (all is_char) specs ≡ true)
unfolding address_specs
address_specs-some [] h = ([], refl, refl, refl)
address_specs-some (e ∷ es) h =
    let (spec, a, b, c) = address_spec-read_spec e (ground arith) in
    let (specs, a', b', c') = address_specs-some es (ground arith) in
    (spec ∷ specs, address_specs-∷ e es spec specs a a', rw b (rw b' refl), rw c (rw c' refl))

limited_long :
    (url : Text)
    → ltb mailto_max_chars (len_bytes url) ≡ true
    → within_limit url ≡ Mailto.too_long (len_bytes url)
unfolding within_limit
limited_long url h = rw h refl

limited_short :
    (url : Text) → ltb mailto_max_chars (len_bytes url) ≡ false → within_limit url ≡ Mailto.link url
unfolding within_limit
limited_short url h = rw h refl

no_addresses : (es : List Email) → map (λ (e : Email). some e.text) es ≡ [] → es ≡ []
no_addresses [] h = refl
no_addresses (e ∷ es) h = absurd (cc)

mailto_at :
    (r : Recipients) (field : RecipientField) (specs : List Text)
    → address_specs r.addresses ≡ some specs
    → mailto r field ≡ some (within_limit (link_of field specs))
unfolding mailto
mailto_at r field specs e = rw (e, mailto) refl

-- For a selection that is not empty, of addresses that each have an `@` and are of Unicode scalar
-- values, `mailto` answers: a link of at most 1,800 bytes from which a mail client that refuses every
-- raw character but the unreserved ones, `@` and the commas reads the bytes of the written addresses, or
-- a length of more than 1,800. Each written address reads back as the address selected.
pub mailto-read_link :
    (r : Recipients) (field : RecipientField)
    → all has_at r.addresses ≡ true
    → r.addresses ≢ []
    → (specs : List Text) × (map read_spec specs ≡ map (λ (e : Email). some e.text) r.addresses)
      × (((url : Text) × (mailto r field ≡ some (Mailto.link url))
            × (len_bytes url ≤ mailto_max_chars)
            × (read_link field url ≡ some (map bytes specs)))
          ⊎ ((n : ℕ) × (mailto r field ≡ some (Mailto.too_long n)) × (mailto_max_chars < n)))
mailto-read_link r field h n =
    let (specs, e, same, chars) = address_specs-some r.addresses h in
    let url = link_of field specs in
    let filled : specs ≢ [] = λ q. n (no_addresses r.addresses (sym same ∙ ap (map read_spec) q)) in
    let answer = mailto_at r field specs e in
    (
      specs,
      same,
      elim (Bool-cases (ltb mailto_max_chars (len_bytes url))) [
        | inl long ↦ inr (len_bytes url, answer ∙ ap some (limited_long url long), ground arith)
        | inr short ↦ inl (
          url,
          answer ∙ ap some (limited_short url short),
          ground arith,
          read_link-link_of field specs filled chars,
        )
      ],
    )
