-- ===== src/Register/Sync/Run/Answer.antt =====
-- sync/mod.rs: every run has an answer, and what a plan that it applies does.
use mathlib.Core.List.{flat_map}
use fau_portalen.Prelude.{
  ◌+◌, ◌*◌, ◌<◌, ◌≤◌, ◌≡◌, sym, ap, ◌∙◌, Option, none, some, All, length, filter, chain_some,
}
use fau_portalen.Text.{Text}
use fau_portalen.Register.Sync.Types
use fau_portalen.Register.Sync.Totals.{attribute_losses, countable_schools}
use fau_portalen.Register.Sync.Totals.Tally.{is_close, is_rename}
use fau_portalen.Register.Sync.Outcome.{enforce, Planned, outcome}
use fau_portalen.Register.Sync.Outcome.Breakers.{outcome-enforce}
use fau_portalen.Register.Sync.Municipalities.State.{RowId, MunicipalityPlan}
use fau_portalen.Register.Sync.Municipalities.Plan.{plan_municipalities}
use fau_portalen.Register.Sync.Schools.Data.{Host}
use fau_portalen.Register.Sync.Schools.Plan.{plan_schools}
use fau_portalen.Register.Sync.Schools.Sorted.{opens}
use fau_portalen.Register.Sync.Schools.Planned.{
  closed_ids, created_schools, numbered_from, plan_schools_lem,
}
use fau_portalen.Register.Sync.Schools.Closed.{IsClosable, plan_schools-IsClosable}
use fau_portalen.Register.Sync.Run.{
  normalised, with_units, same_id, planned_of, planned, plan_nonempty, unless_empty, empty_source,
  plan_with, plan,
}

abbrev pub HasAttempts : Host → Types.RegisterSnapshot RowId → Types.SyncInputs → Type 0
HasAttempts host snapshot inputs =
    length snapshot.schools + length snapshot.school_slug_history + 2 * length inputs.units
    < host.attempts

module _ (host : Host) (snapshot : Types.RegisterSnapshot RowId) where
  -- An answer that is no abort for an empty source is that of the planners.
  from_planners :
      (source : Option Text) (o : Option (Types.SyncOutcome RowId)) (p : Types.SyncPlan RowId)
      → unless_empty host snapshot source o ≡ some (Types.SyncOutcome.apply p)
      → o ≡ some (Types.SyncOutcome.apply p)
  from_planners none o p h = h
  from_planners (some source) o p h = absurd (cc)

  plan-planned :
      (inputs : Types.SyncInputs) (p : Types.SyncPlan RowId)
      → plan host snapshot inputs ≡ some (Types.SyncOutcome.apply p)
      → (q : Planned RowId) × (planned host snapshot (with_units inputs (normalised inputs.units))
          ≡ some q)
        × (outcome same_id snapshot inputs.kind enforce q ≡ Types.SyncOutcome.apply p)
  unfolding plan plan_with plan_nonempty
  plan-planned inputs p h =
      let units = with_units inputs (normalised inputs.units) in
      let (q, e, f) =
        chain_some (planned host snapshot units)
          (λ q. some (outcome same_id snapshot inputs.kind enforce q)) (Types.SyncOutcome.apply p)
          (from_planners (empty_source inputs) _ p h) in
      (q, e, cc)

  -- What an applied plan does: its closures and creations are those of the units, and it keeps to the
  -- limits.
  pub record IsPlanFor (inputs : Types.SyncInputs) (p : Types.SyncPlan RowId) : Type 0 where
    pub municipalities : MunicipalityPlan
    pub planned_so :
        plan_municipalities host.unicode snapshot (with_units inputs (normalised inputs.units))
        ≡ some municipalities
    pub same_ops : p.municipality_ops ≡ municipalities.ops
    pub closable : All (IsClosable snapshot municipalities.state) (closed_ids p.school_ops)
    pub created :
        created_schools p.school_ops
        ≡ numbered_from 0 (flat_map (opens snapshot municipalities.state) (normalised inputs.units))
    pub few_closed : length (filter is_close p.school_ops) * 100 ≤ countable_schools snapshot * 2
    pub few_renamed : length (filter is_rename p.school_ops) * 100 ≤ countable_schools snapshot * 5
    pub few_lost :
        attribute_losses same_id snapshot p.school_ops * 100 ≤ countable_schools snapshot * 5

  -- The plan that a sync run applies, where some school counts as active: its operations on
  -- municipalities are the municipality planner's; every school that it closes is an active school of
  -- the snapshot that is listed or verified, has no live FAU, and stands in no municipality of an
  -- unexplained change; it creates one school for each unit that opens one, in the order of the units'
  -- numbers; and it closes at most two in a hundred active schools, renames at most five, and takes an
  -- attribute from at most five.
  pub plan-IsPlanFor :
      (inputs : Types.SyncInputs) (p : Types.SyncPlan RowId)
      → inputs.kind ≡ Types.RunKind.sync
      → 0 < countable_schools snapshot
      → plan host snapshot inputs ≡ some (Types.SyncOutcome.apply p)
      → IsPlanFor inputs p
  unfolding planned
  plan-IsPlanFor inputs p sync some_active h =
      let units = with_units inputs (normalised inputs.units) in
      let (q, e, f) = plan-planned inputs p h in
      let (m, em, e') = chain_some (plan_municipalities host.unicode snapshot units) _ q e in
      let (s, es, e'') = chain_some (plan_schools host snapshot units m.state) _ q e' in
      let whose : planned_of m s ≡ q = cc in
      let ((a, b, c), filled, x, y, z) =
        outcome-enforce same_id snapshot q p (rw sync at f) some_active in
      let schools : p.school_ops ≡ s.ops =
        b ∙ ap (λ (r : Planned RowId). r.school_ops) (sym whose) in
      let (closed, created) = plan_schools_lem host snapshot units m.state s es in
      record {
        municipalities = m;
        planned_so = em;
        same_ops = a ∙ ap (λ (r : Planned RowId). r.municipality_ops) (sym whose);
        closable = rw schools (plan_schools-IsClosable snapshot m.state host units s es);
        created = rw schools created;
        few_closed = x;
        few_renamed = y;
        few_lost = z;
      }
