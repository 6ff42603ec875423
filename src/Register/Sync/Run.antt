-- ===== src/Register/Sync/Run.antt =====
-- sync/mod.rs: a whole run of the planner.
pub mod Units
pub mod Order
pub mod Answer
pub mod Accepted
use fau_portalen.Prelude.{
  ℕ, Ordering, sort_by, Option, none, some, Bool, true, false, List, [], ◌∷◌, ◌++◌, is_empty,
  if◌then◌else◌, ◌==◌,
}
use fau_portalen.Text.{Text, text_eq, text_cmp, codes}
use fau_portalen.Register.Source.{NsrUnit}
use fau_portalen.Register.Sync.Types
use fau_portalen.Register.Sync.Totals.{zero_counts}
use fau_portalen.Register.Sync.Outcome.{Breaker, enforce, accept, Planned, outcome}
use fau_portalen.Register.Sync.Municipalities.State.{RowId, MunicipalityPlan}
use fau_portalen.Register.Sync.Municipalities.Plan.{plan_municipalities}
use fau_portalen.Register.Sync.Schools.Data.{Host, SchoolPlan}
use fau_portalen.Register.Sync.Schools.Plan.{plan_schools}

unfoldable pub empty_source : Types.SyncInputs → Option Text
empty_source inputs =
    if is_empty inputs.municipalities
    then some (codes "kartverket")
    else if is_empty inputs.units
    then some (codes "nsr")
    else none

unfoldable pub compare_units : NsrUnit → NsrUnit → Ordering
compare_units a b = text_cmp a.orgnr b.orgnr

-- `dedup_by`: a unit with the number of the last one kept goes.
unfoldable pub dedup_after : NsrUnit → List NsrUnit → List NsrUnit
dedup_after last [] = []
dedup_after last (u ∷ units) =
    let rest = dedup_after last units in
    let kept = u ∷ dedup_after u units in if text_eq u.orgnr last.orgnr then rest else kept

unfoldable pub dedup : List NsrUnit → List NsrUnit
dedup [] = []
dedup (u ∷ units) = u ∷ dedup_after u units

unfoldable pub normalised : List NsrUnit → List NsrUnit
normalised units = dedup (sort_by compare_units units)

abbrev pub with_units : Types.SyncInputs → List NsrUnit → Types.SyncInputs
with_units inputs units = record inputs { units = units }

abbrev pub same_id : RowId → RowId → Bool
same_id a b = a == b

abbrev pub planned_of : MunicipalityPlan → SchoolPlan → Planned RowId
planned_of municipalities schools = record {
  municipality_ops = municipalities.ops;
  school_ops = schools.ops;
  reviews = municipalities.reviews ++ schools.reviews;
  skipped = schools.skipped;
}

module _ (host : Host) (snapshot : Types.RegisterSnapshot RowId) where
  -- The two planners, one after the other; `none` is a panic.
  unfoldable pub planned : Types.SyncInputs → Option (Planned RowId)
  planned inputs = elim (plan_municipalities host.unicode snapshot inputs) [
    | none ↦ none
    | some municipalities ↦ elim (plan_schools host snapshot inputs municipalities.state) [
      | none ↦ none
      | some schools ↦ some (planned_of municipalities schools)
    ]
  ]

  unfoldable pub plan_nonempty : Types.SyncInputs → Breaker → Option (Types.SyncOutcome RowId)
  plan_nonempty inputs breaker = elim (planned (with_units inputs (normalised inputs.units))) [
    | none ↦ none
    | some p ↦ some (outcome same_id snapshot inputs.kind breaker p)
  ]

  abbrev pub unless_empty :
      Option Text → Option (Types.SyncOutcome RowId) → Option (Types.SyncOutcome RowId)
  unless_empty (some source) o =
      some (Types.SyncOutcome.abort (Types.AbortReason.empty_source source) zero_counts)
  unless_empty none o = o

  unfoldable pub plan_with : Types.SyncInputs → Breaker → Option (Types.SyncOutcome RowId)
  plan_with inputs breaker = unless_empty (empty_source inputs) (plan_nonempty inputs breaker)

  unfoldable pub plan : Types.SyncInputs → Option (Types.SyncOutcome RowId)
  plan inputs = plan_with inputs enforce

  unfoldable pub plan_accepting_mass_change : Types.SyncInputs → Option (Types.SyncOutcome RowId)
  plan_accepting_mass_change inputs = plan_with inputs accept
