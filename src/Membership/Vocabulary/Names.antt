-- ===== src/Membership/Vocabulary/Names.antt =====
-- membership/vocabulary.rs: the names that people type, `RoleName`, `FauName`, `GroupName` and
-- `DisplayName`.
use fau_portalen.Prelude.{
  Result, sym, ℕ, ◌≤◌, ◌≡◌, ◌↔◌, true, false, arith, ltb, is_empty, length, any, ok, ◌>>=◌, ◌>>◌,
  refuse_if,
}
use fau_portalen.Text.{Text, trim, is_control, starts_solid, ends_solid, trim_solid, trim_id}

pub data NameError : Type 0 where
  empty too_long control_character : NameError

unfoldable pub validate_name : Text → ℕ → Result NameError Text
validate_name raw max_chars =
    let s = trim raw in
    do
      refuse_if (is_empty s) empty
      refuse_if (ltb max_chars (length s)) too_long
      refuse_if (any is_control s) control_character
      ok s

-- The four name types wrap the text that `validate_name` returns.
pub record RoleName : Type 0 where
  pub text : Text

pub record FauName : Type 0 where
  pub text : Text

pub record GroupName : Type 0 where
  pub text : Text

pub record DisplayName : Type 0 where
  pub text : Text

unfoldable pub parse_role_name : Text → Result NameError RoleName
unfolding validate_name
parse_role_name raw = do s ← validate_name raw 100; ok (record { text = s })

unfoldable pub parse_fau_name : Text → Result NameError FauName
unfolding validate_name
parse_fau_name raw = do s ← validate_name raw 200; ok (record { text = s })

unfoldable pub parse_group_name : Text → Result NameError GroupName
unfolding validate_name
parse_group_name raw = do s ← validate_name raw 100; ok (record { text = s })

unfoldable pub parse_display_name : Text → Result NameError DisplayName
unfolding validate_name
parse_display_name raw = do s ← validate_name raw 100; ok (record { text = s })

-- A name as it is stored: not empty, no white space at either end, at most `max_chars` characters and
-- no control character.
pub record IsName (max_chars : ℕ) (s : Text) : Type 0 where
  pub nonempty : is_empty s ≡ false
  pub starts : starts_solid s ≡ true
  pub ends : ends_solid s ≡ true
  pub fits : length s ≤ max_chars
  pub printable : any is_control s ≡ false

pub validate_name_lem :
    (raw : Text) (max_chars : ℕ) (s : Text)
    → (validate_name raw max_chars ≡ ok s) ↔ ((s ≡ trim raw) × IsName max_chars s)
unfolding validate_name
validate_name_lem raw max_chars s = (
  λ h.
      let e : s ≡ trim raw = ground arith in
      (
        e,
        record {
          nonempty = ground arith;
          starts = rw e (trim_solid raw).0;
          ends = rw e (trim_solid raw).1;
          fits = ground arith;
          printable = ground arith;
        },
      ),
  λ (e, n). ground arith,
)

-- Validating a stored name again changes nothing.
pub validate_name-validate_name :
    (raw : Text) (max_chars : ℕ) (s : Text)
    → validate_name raw max_chars ≡ ok s
    → IsName max_chars s × (validate_name s max_chars ≡ ok s)
validate_name-validate_name raw max_chars s h =
    let n = ((validate_name_lem raw max_chars s).0 h).1 in
    (n, (validate_name_lem s max_chars s).1 (sym (trim_id s n.starts n.ends), n))
