-- ===== src/Membership/Retention.antt =====
-- membership/retention.rs: how long a former member's fields are kept.
use fau_portalen.Prelude.{
  ℕ, ◌<◌, ◌≡◌, ◌↔◌, Option, none, some, Bool, true, false, List, [], ◌∷◌, arith, ltb, ◌==◌,
  if◌then◌else◌, find,
}
use fau_portalen.Calendar.{Date, Calendar}

pub data RetentionMonths : Type 0 where
  at_once three six twelve twenty_four : RetentionMonths

abbrev pub retention_all : List RetentionMonths
retention_all = at_once ∷ three ∷ six ∷ twelve ∷ twenty_four ∷ []

unfoldable pub months : RetentionMonths → ℕ
months at_once = 0
months three = 3
months six = 6
months twelve = 12
months twenty_four = 24

unfoldable pub from_months : ℕ → Option RetentionMonths
unfolding months
from_months n = find (λ v. months v == n) retention_all

abbrev pub is_at_once : RetentionMonths → Bool
is_at_once at_once = true
is_at_once three = false
is_at_once six = false
is_at_once twelve = false
is_at_once twenty_four = false

-- `Option::filter`
abbrev pub keep_if {ℓ} : {A : Type ℓ} → (A → Bool) → Option A → Option A
keep_if p none = none
keep_if p (some a) = if p a then some a else none

module _ (cal : Calendar) where
  unfoldable pub retained_until : Date → RetentionMonths → Option Date
  unfolding months
  retained_until ended_on m =
      if is_at_once m then none else cal.checked_add_months ended_on (months m)

  unfoldable pub keep_until : Date → RetentionMonths → Date → Option Date
  unfolding retained_until
  keep_until ended_on m today = keep_if (λ until. ltb today until) (retained_until ended_on m)

  -- The fields of a membership that ended are kept on a day, until the date `until`, exactly when the
  -- member chose a period, that period after the end falls on `until`, and the day is before it.
  pub keep_until_iff :
      (ended_on today until : Date) (m : RetentionMonths)
      → (keep_until ended_on m today ≡ some until) ↔ (
          (0 < months m)
          × (cal.checked_add_months ended_on (months m) ≡ some until)
          × (today < until))
  unfolding keep_until
  keep_until_iff ended_on today until at_once = ground arith
  keep_until_iff ended_on today until three = ground arith
  keep_until_iff ended_on today until _ = ground arith

-- The five allowed numbers of months and no others are read from the database, each as the period
-- that is written as that number.
pub from_months_iff : (n : ℕ) (m : RetentionMonths) → (from_months n ≡ some m) ↔ (n ≡ months m)
unfolding from_months
from_months_iff n at_once = ground arith
from_months_iff n three = ground arith
from_months_iff n _ = ground arith
