-- ===== src/Directory/History.antt =====
-- directory/history.rs: how history shows someone whose membership has ended.
pub mod Label
pub mod Runs
pub mod Period
use fau_portalen.Prelude.{
  ℕ, zero, suc, ◌-◌, Option, none, some, Bool, true, false, ◌&&◌, ◌||◌, List, [], ◌∷◌, map, ltb,
  leb, ◌==◌, min_of, max_of, if◌then◌else◌, filter, find,
}
use fau_portalen.Text.{Text}
use fau_portalen.Calendar.{Date, Calendar}
use fau_portalen.Membership.Vocabulary.{CapabilityClass}

pub record HeldRole : Type 0 where
  pub name : Text
  pub class : CapabilityClass
  pub from : Date
  pub until : Date

pub record RoleLabel : Type 0 where
  pub role : Text
  pub first_year : ℕ
  pub last_year : ℕ

unfoldable pub is_one_year : RoleLabel → Bool
is_one_year l = l.first_year == l.last_year

unfoldable pub class_rank : CapabilityClass → ℕ
class_rank CapabilityClass.admin = 0
class_rank CapabilityClass.member = 1
class_rank CapabilityClass.guest = 2

-- `min_by_key`: the first of the elements with the least key, where `less` compares keys.
unfoldable pub min_by {ℓ} : {A : Type ℓ} → (A → A → Bool) → List A → Option A
min_by less [] = none
min_by less (a ∷ as') = elim (min_by less as') [
  | none ↦ some a
  | some b ↦ if less b a then some b else some a
]

-- The keys of the three calls, compared as Rust compares tuples.
unfoldable pub less_during : HeldRole → HeldRole → Bool
unfolding class_rank
less_during a b =
    ltb (class_rank a.class) (class_rank b.class)
    || (class_rank a.class == class_rank b.class && ltb a.from b.from)

unfoldable pub less_after : HeldRole → HeldRole → Bool
unfolding less_during
less_after a b = ltb b.until a.until || (a.until == b.until && less_during a b)

unfoldable pub less_before : HeldRole → HeldRole → Bool
unfolding class_rank
less_before a b =
    ltb a.from b.from || (a.from == b.from && ltb (class_rank a.class) (class_rank b.class))

abbrev pub held_on : Date → HeldRole → Bool
held_on day r = leb r.from day && ltb day r.until

abbrev pub ended_by : Date → HeldRole → Bool
ended_by day r = leb r.until day

-- `Option::or_else`
abbrev pub or_else {ℓ} : {A : Type ℓ} → Option A → Option A → Option A
or_else (some a) other = some a
or_else none other = other

unfoldable pub chosen_role : List HeldRole → Date → Option HeldRole
chosen_role held day =
    or_else (min_by less_during (filter (held_on day) held))
      (or_else (min_by less_after (filter (ended_by day) held)) (min_by less_before held))

-- `max()` over dates.
unfoldable pub max_date : List Date → Option Date
max_date [] = none
max_date (d ∷ ds) = elim (max_date ds) [ none ↦ some d | some m ↦ some (max_of d m) ]

-- `yesterday().unwrap_or(from)`: there is no day before `Date::MIN`, which is day 0.
abbrev pub yesterday_or : Date → Date → Date
yesterday_or zero from = from
yesterday_or (suc d) from = d

module _ (cal : Calendar) where
  unfoldable pub label_of : HeldRole → RoleLabel
  label_of r = record {
    role = r.name;
    first_year = cal.year r.from;
    last_year = cal.year (yesterday_or r.until r.from);
  }

  unfoldable pub role_label : List HeldRole → Date → Option RoleLabel
  unfolding label_of
  role_label held day = elim (chosen_role held day) [ none ↦ none | some r ↦ some (label_of r) ]

unfoldable pub ended_on : List HeldRole → Date → Date
ended_on held today = elim (max_date (map (λ (r : HeldRole). r.until) held)) [
  | none ↦ today
  | some d ↦ min_of d today
]

pub record ActivePeriod : Type 0 where
  pub since : Date
  pub earlier : List HeldRole

unfoldable pub label_on : Calendar → ActivePeriod → Date → Option RoleLabel
label_on cal p day = if leb p.since day then none else role_label cal p.earlier day

-- A span of days, `(from, until)`.
pub record DaySpan : Type 0 where
  pub from : Date
  pub until : Date

abbrev pub span_leb : DaySpan → DaySpan → Bool
span_leb a b = ltb a.from b.from || (a.from == b.from && leb a.until b.until)

-- `spans.sort()`, which is stable; equal spans are alike.
unfoldable pub insert_span : DaySpan → List DaySpan → List DaySpan
insert_span s [] = s ∷ []
insert_span s (t ∷ ts) =
    let later = insert_span s ts in if span_leb s t then s ∷ (t ∷ ts) else t ∷ later

unfoldable pub sort_spans : List DaySpan → List DaySpan
sort_spans [] = []
sort_spans (s ∷ ss) = insert_span s (sort_spans ss)

-- The loop over the sorted spans: `run` is the last of `runs`, which the loop may lengthen.
unfoldable pub merge_from : DaySpan → List DaySpan → List DaySpan
merge_from run [] = run ∷ []
merge_from run (s ∷ ss) =
    let joined = merge_from (record run { until = max_of run.until s.until }) ss in
    let apart = run ∷ merge_from s ss in if leb s.from run.until then joined else apart

unfoldable pub merge_spans : List DaySpan → List DaySpan
merge_spans [] = []
merge_spans (s ∷ ss) = merge_from s ss

abbrev pub span_of : HeldRole → DaySpan
span_of r = record { from = r.from; until = r.until }

abbrev pub span_holds : Date → DaySpan → Bool
span_holds day s = leb s.from day && ltb day s.until

unfoldable pub active_period : List HeldRole → Date → ActivePeriod
active_period held today =
    elim (find (span_holds today) (merge_spans (sort_spans (map span_of held)))) [
      | some run ↦ record {
        since = run.from;
        earlier = filter (λ (r : HeldRole). ltb r.until run.from) held;
      }
      | none ↦ record { since = today; earlier = filter (ended_by today) held }
    ]
