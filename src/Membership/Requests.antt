-- ===== src/Membership/Requests.antt =====
-- membership/requests.rs: access requests and replacement proposals.
pub mod Message
use fau_portalen.Prelude.{
  ℕ, ◌≤◌, ◌<◌, ◌-◌, ◌≡◌, ◌↔◌, Result, ok, err, ◌>>=◌, ◌>>◌, refuse_if, Option, none, some, Bool,
  ◌&&◌, not, List, [], ◌∷◌, arith, ltb, leb, ◌==◌, if◌then◌else◌, any, length, is_empty,
}
use fau_portalen.Calendar.{Date}
use fau_portalen.Text.{Text, trim, is_control}
use fau_portalen.Membership.Period.{Period, EmptyPeriod, new_period}

abbrev pub max_open_requests_per_address : ℕ
max_open_requests_per_address = 1

abbrev pub max_requests_per_tenant_per_day : ℕ
max_requests_per_tenant_per_day = 5

abbrev pub request_lapse_days : ℕ
request_lapse_days = 30

abbrev pub message_max_chars : ℕ
message_max_chars = 500

pub data RequestLimit : Type 0 where
  open_request_exists tenant_daily_limit : RequestLimit

-- The two counts are SQL counts, so they are not negative.
unfoldable pub check_request_limits : ℕ → ℕ → Result RequestLimit (Unit {0})
check_request_limits open_by_address created_today = do
  refuse_if (leb max_open_requests_per_address open_by_address) open_request_exists
  refuse_if (leb max_requests_per_tenant_per_day created_today) tenant_daily_limit
  ok tt

pub data MessageError : Type 0 where
  control_character too_long : MessageError

abbrev pub cr : ℕ
cr = 13

abbrev pub lf : ℕ
lf = 10

-- `replace("\r\n", "\n")`, from left to right.
unfoldable pub replace_crlf : Text → Text
replace_crlf [] = []
replace_crlf (c ∷ []) = c ∷ []
replace_crlf (c ∷ d ∷ s) =
    let joined = lf ∷ replace_crlf s in
    let kept = c ∷ replace_crlf (d ∷ s) in if c == cr && d == lf then joined else kept

-- `replace('\r', "\n")`.
unfoldable pub replace_cr : Text → Text
replace_cr [] = []
replace_cr (c ∷ s) = (if c == cr then lf else c) ∷ replace_cr s

unfoldable pub check_message : Text → Result MessageError (Option Text)
check_message trimmed =
    let normalised = replace_cr (replace_crlf trimmed) in
    do
      refuse_if (any (λ c. not (c == lf) && is_control c) normalised) control_character
      refuse_if (ltb message_max_chars (length normalised)) too_long
      ok (some normalised)

unfoldable pub normalise_message : Option Text → Result MessageError (Option Text)
unfolding check_message
normalise_message none = ok none
normalise_message (some raw) =
    let trimmed = trim raw in if is_empty trimmed then ok none else check_message trimmed

-- `checked_sub` of days fails before `Date::MIN`, which is day 0.
unfoldable pub lapse_cutoff : Date → Date
lapse_cutoff today = today - request_lapse_days

pub data ReplacementDateError : Type 0 where
  starts_in_past empty : ReplacementDateError

-- `map_err(|_| ReplacementDateError::Empty)`
abbrev pub as_empty : Result EmptyPeriod Period → Result ReplacementDateError Period
as_empty (ok p) = ok p
as_empty (err e) = err empty

unfoldable pub check_replacement_dates : Date → Date → Date → Result ReplacementDateError Period
unfolding new_period
check_replacement_dates today starts_on ends_on_exclusive = do
  refuse_if (ltb starts_on today) starts_in_past
  as_empty (new_period starts_on ends_on_exclusive)

-- A replacement's dates are accepted exactly when the role starts no earlier than today and ends after
-- it starts, and the period is the one that was asked for.
pub check_replacement_dates_iff :
    (today starts_on ends_on_exclusive : Date) (p : Period)
    → (check_replacement_dates today starts_on ends_on_exclusive ≡ ok p) ↔ (
        (today ≤ starts_on)
        × (starts_on < ends_on_exclusive)
        × (p ≡ record { starts_on = starts_on; ends_on_exclusive = ends_on_exclusive }))
unfolding check_replacement_dates
check_replacement_dates_iff today s e p = ground arith

-- A request may be made exactly when the address has none open in the FAU and the FAU has received
-- fewer than five today.
pub check_request_limits_iff :
    (open_by_address created_today : ℕ)
    → (check_request_limits open_by_address created_today ≡ ok tt)
      ↔ ((open_by_address ≡ 0) × (created_today < 5))
unfolding check_request_limits
check_request_limits_iff open_by_address created_today = ground arith
