-- ===== src/Membership/Rules.antt =====
-- membership/rules.rs: the flow spec's numbers and date arithmetic. The months and days are added by
-- jiff, so these functions take the `Calendar`.
pub mod AdminEnd
use fau_portalen.Prelude.{
  ℕ, ◌+◌, ◌*◌, ◌≤◌, ◌<◌, ◌≡◌, ◌↔◌, Result, ok, err, ok_of, ◌>>=◌, ◌>>◌, refuse_if, Option, none,
  some, Bool, true, false, arith, ltb, leb, if◌then◌else◌, Bool-cases, Option-cases, inl, inr, ◌⊎◌,
}
use fau_portalen.Calendar.{Date, Timestamp, Calendar, unwrap_or}
use fau_portalen.Membership.Period.{Period, EmptyPeriod, new_period}

abbrev pub handover_months : ℕ
handover_months = 6

abbrev pub admin_end_min_months : ℕ
admin_end_min_months = 1

abbrev pub admin_end_max_months : ℕ
admin_end_max_months = 24

abbrev pub admin_end_default_lead_months : ℕ
admin_end_default_lead_months = 3

abbrev pub pending_signup_days : ℕ
pending_signup_days = 7

abbrev pub invitation_days : ℕ
invitation_days = 14

abbrev pub recent_holder_months : ℕ
recent_holder_months = 24

pub data AdminEndError : Type 0 where
  too_soon too_late : AdminEndError

-- The nanoseconds of an hour, in which `checked_add` of a duration counts.
abbrev pub nanos_per_hour : ℕ
nanos_per_hour = 3600000000000

module _ (cal : Calendar) where
  unfoldable pub add_months : Date → ℕ → Date
  add_months day months = unwrap_or (cal.checked_add_months day months) cal.max_date

  unfoldable pub handover_boundary : Date → Date
  unfolding add_months
  handover_boundary admin_ends = add_months admin_ends handover_months

  unfoldable pub handover_period : Date → Option Period
  handover_period admin_ends = ok_of (new_period admin_ends (handover_boundary admin_ends))

  unfoldable pub default_admin_end : Date → Date
  unfolding add_months
  default_admin_end today =
      let earliest = add_months today admin_end_default_lead_months in
      let this_year = unwrap_or (cal.civil (cal.year earliest) 10 1) cal.max_date in
      if leb earliest this_year
      then this_year
      else unwrap_or (cal.civil (cal.year earliest + 1) 10 1) cal.max_date

  unfoldable pub validate_admin_end : Date → Date → Result AdminEndError (Unit {0})
  unfolding add_months
  validate_admin_end today ends_on_exclusive = do
    refuse_if (ltb ends_on_exclusive (add_months today admin_end_min_months)) too_soon
    refuse_if (ltb (add_months today admin_end_max_months) ends_on_exclusive) too_late
    ok tt

  -- `Timestamp::checked_add` fails past `Timestamp::MAX`.
  unfoldable pub add_hours : Timestamp → ℕ → Timestamp
  add_hours now hours =
      let later = now + hours * nanos_per_hour in
      if leb later cal.max_timestamp then later else cal.max_timestamp

  unfoldable pub pending_signup_expiry : Timestamp → Timestamp
  unfolding add_hours
  pending_signup_expiry now = add_hours now (24 * pending_signup_days)

  unfoldable pub invitation_expiry : Timestamp → Timestamp
  unfolding add_hours
  invitation_expiry now = add_hours now (24 * invitation_days)

  unfoldable pub recent_holder_window_start : Date → Date
  recent_holder_window_start today = unwrap_or (cal.checked_sub_months today recent_holder_months) 0

-- What the rules rely on of jiff's calendar: adding months goes forward, and further for more months;
-- months added in two steps go no further than in one (a month's end is cut, and not given back);
-- no date is later than `Date::MAX`; and a 1 October that comes before a day is followed by the next
-- within twelve months of that day.
pub record IsCivil (cal : Calendar) : Type 0 where
  pub bounded : (d : Date) (n : ℕ) → add_months cal d n ≤ cal.max_date
  pub mono : (d : Date) (m n : ℕ) → m ≤ n → add_months cal d m ≤ add_months cal d n
  pub forward : (d e : Date) (n : ℕ) → 0 < n → cal.checked_add_months d n ≡ some e → d < e
  pub steps :
      (d : Date) (m n : ℕ) → add_months cal (add_months cal d m) n ≤ add_months cal d (m + n)
  pub october :
      (d : Date)
      → d ≤ cal.max_date
      → (d ≤ unwrap_or (cal.civil (cal.year d) 10 1) cal.max_date)
          × (unwrap_or (cal.civil (cal.year d) 10 1) cal.max_date ≤ add_months cal d 9)
        ⊎ (unwrap_or (cal.civil (cal.year d) 10 1) cal.max_date < d)
          × (d ≤ unwrap_or (cal.civil (cal.year d + 1) 10 1) cal.max_date)
          × (unwrap_or (cal.civil (cal.year d + 1) 10 1) cal.max_date ≤ add_months cal d 12)
