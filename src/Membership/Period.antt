-- ===== src/Membership/Period.antt =====
-- membership/period.rs: half-open date ranges with a mandatory end.
use fau_portalen.Prelude.{
  Result, ok, err, ◌≤◌, ◌<◌, ◌≡◌, ◌↔◌, Bool, true, false, ◌&&◌, arith, ltb, leb, if◌then◌else◌,
}
use fau_portalen.Calendar.{Date}

pub record Period : Type 0 where
  pub starts_on : Date
  pub ends_on_exclusive : Date

pub data EmptyPeriod : Type 0 where
  empty_period : EmptyPeriod

unfoldable pub new_period : Date → Date → Result EmptyPeriod Period
new_period starts_on ends_on_exclusive =
    if ltb starts_on ends_on_exclusive
    then ok (record { starts_on = starts_on; ends_on_exclusive = ends_on_exclusive })
    else err empty_period

unfoldable pub contains : Period → Date → Bool
contains p day = leb p.starts_on day && ltb day p.ends_on_exclusive

unfoldable pub has_ended_by : Period → Date → Bool
has_ended_by p day = leb p.ends_on_exclusive day

-- What `new_period` promises of every period it makes.
abbrev pub IsNonempty : Period → Type 0
IsNonempty p = p.starts_on < p.ends_on_exclusive

-- `Period::new` refuses exactly the pairs of dates between which no day lies.
pub new_period-empty_period : (s e : Date) → (new_period s e ≡ err empty_period) ↔ (e ≤ s)
unfolding new_period
new_period-empty_period s e = ground arith

-- A period that `Period::new` makes runs from the first date to the second: it is not empty, it contains
-- its first day, and it contains a day exactly when it has begun and has not ended by that day.
pub new_period_lem :
    (s e : Date) (p : Period)
    → new_period s e ≡ ok p
    → IsNonempty p
      × (contains p s ≡ true)
      × ((d : Date) → (contains p d ≡ true) ↔ ((s ≤ d) × (has_ended_by p d ≡ false)))
      × ((d : Date) → (has_ended_by p d ≡ true) ↔ (e ≤ d))
unfolding new_period contains has_ended_by
new_period_lem s e p h = (ground arith, ground arith, λ d. ground arith, λ d. ground arith)
