-- ===== src/Calendar.antt =====
-- Civil dates and instants, for time.rs and every rule that depends on a date. They are values of
-- the jiff crate: a `Date` is the number of its day, counted from `Date::MIN`, and a `Timestamp` the
-- number of its nanosecond, counted from `Timestamp::MIN`, so that jiff's comparisons are those of
-- the numbers. jiff's arithmetic is a parameter, the record `Calendar`.
use fau_portalen.Prelude.{ℕ, Option, none, some}

abbrev pub Date : Type 0
Date = ℕ

abbrev pub Timestamp : Type 0
Timestamp = ℕ

-- What the code calls of jiff. Years are counted from the year of `Date::MIN`.
pub record Calendar : Type 0 where
  pub max_date : Date
  pub max_timestamp : Timestamp
  -- `Date::checked_add` and `Date::checked_sub` of a span of calendar months
  pub checked_add_months : Date → ℕ → Option Date
  pub checked_sub_months : Date → ℕ → Option Date
  -- `Date::year`, and `Date::new`
  pub year : Date → ℕ
  pub civil : ℕ → ℕ → ℕ → Option Date
  -- `Timestamp::to_zoned` in Europe/Oslo, then `date`
  pub oslo_date : Timestamp → Date

-- `unwrap_or`.
abbrev pub unwrap_or {ℓ} : {A : Type ℓ} → Option A → A → A
unwrap_or none d = d
unwrap_or (some a) d = a

-- `Moment` of time.rs; its fields are private there, and only `Moment::at` makes one.
pub record Moment : Type 0 where
  pub now : Timestamp
  pub today : Date

module _ (cal : Calendar) where
  unfoldable pub oslo_today : Timestamp → Date
  oslo_today now = cal.oslo_date now

  unfoldable pub moment_at : Timestamp → Moment
  unfolding oslo_today
  moment_at now = record { now = now; today = oslo_today now }
