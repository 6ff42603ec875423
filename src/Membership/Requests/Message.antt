-- ===== src/Membership/Requests/Message.antt =====
-- requests.rs, `normalise_message`: what a stored message looks like.
use fau_portalen.Prelude.{
  ◌≤◌, ◌≡◌, refl, ap, ◌∙◌, ok, some, false, ◌&&◌, not, [], ◌∷◌, arith, ◌==◌, if◌then◌else◌, any,
  length, is_empty,
}
use fau_portalen.Text.{Text, trim, is_control, has_char}
use fau_portalen.Membership.Requests.{
  cr, lf, message_max_chars, replace_crlf, replace_cr, normalise_message,
}

-- The text with every line end written `\n`: a `\r\n` and a lone `\r` each become one.
pub unix_lines : Text → Text
unix_lines [] = []
unix_lines (c ∷ []) = (if c == cr then lf else c) ∷ []
unix_lines (c ∷ d ∷ s) =
    let pair = lf ∷ unix_lines s in
    let single = (if c == cr then lf else c) ∷ unix_lines (d ∷ s) in
    if c == cr && d == lf then pair else single

replaced : (s : Text) → replace_cr (replace_crlf s) ≡ unix_lines s
unfolding replace_cr replace_crlf unix_lines
replaced [] = refl
replaced (c ∷ []) = refl
replaced (c ∷ d ∷ s) = ground (arith, replaced s, replaced (d ∷ s))

replace_cr_clean : (s : Text) → has_char cr (replace_cr s) ≡ false
unfolding replace_cr
replace_cr_clean [] = refl
replace_cr_clean (c ∷ s) = ground (arith, replace_cr_clean s)

-- A message that is stored has no carriage return, no control character but line breaks, and at most
-- 500 characters; it is the trimmed input with its line ends written `\n`, and the input was not blank.
pub normalise_message_lem :
    (raw s : Text)
    → normalise_message (some raw) ≡ ok (some s)
    → (is_empty (trim raw) ≡ false)
      × (s ≡ unix_lines (trim raw))
      × (has_char cr s ≡ false)
      × (any (λ c. not (c == lf) && is_control c) s ≡ false)
      × (length s ≤ message_max_chars)
unfolding normalise_message
normalise_message_lem raw s h =
    let e : s ≡ replace_cr (replace_crlf (trim raw)) = ground arith in
    (
      ground arith,
      e ∙ replaced (trim raw),
      ap (has_char cr) e ∙ replace_cr_clean (replace_crlf (trim raw)),
      ground arith,
      ground arith,
    )
