-- ===== src/Register/Sync/Outcome/Breakers.antt =====
-- sync/mod.rs: what a run that applies its plan changes at most.
use fau_portalen.Prelude.{
  ◌*◌, ◌≤◌, ◌<◌, ◌≡◌, ◌⊎◌, refl, sym, ◌∙◌, none, some, Bool, false, ◌&&◌, arith, length, filter,
  is_empty, Option-cases, Bool-cases, inl, inr,
}
use fau_portalen.Register.Sync.Types
use fau_portalen.Register.Sync.Totals.{attribute_losses, mass_change, countable_schools}
use fau_portalen.Register.Sync.Totals.Tally.{is_close, is_rename, tally_lem}
use fau_portalen.Register.Sync.Outcome.{
  Planned, Breaker, enforce, accept, counts_of, apply_or_nothing, tripped, outcome,
}

module _ {ℓ} {Row : Type ℓ} where
  within :
      (snapshot : Types.RegisterSnapshot Row) (c : Types.Counts)
      → 0 < countable_schools snapshot
      → mass_change snapshot c ≡ none
      → (c.schools_closed * 100 ≤ countable_schools snapshot * 2)
        × (c.schools_renamed * 100 ≤ countable_schools snapshot * 5)
        × (c.attribute_losses * 100 ≤ countable_schools snapshot * 5)
  unfolding mass_change
  within snapshot c some_active calm = ground arith

  applied_plan :
      (eq : Row → Row → Bool) (snapshot : Types.RegisterSnapshot Row) (p : Planned Row)
      (plan : Types.SyncPlan Row)
      → apply_or_nothing eq snapshot p ≡ Types.SyncOutcome.apply plan
      → ((is_empty p.municipality_ops && (is_empty p.school_ops && is_empty p.reviews)) ≡ false)
        × (plan.municipality_ops ≡ p.municipality_ops)
        × (plan.school_ops ≡ p.school_ops)
        × (plan.reviews ≡ p.reviews)
  unfolding apply_or_nothing
  applied_plan eq snapshot p plan h =
      elim (Bool-cases
        (is_empty p.municipality_ops && (is_empty p.school_ops && is_empty p.reviews))) [
          | inl e ↦ absurd (cc (rw e at h))
          | inr e ↦ let q = rw e at h in (e, cc, cc, cc)
        ]

  pub outcome_calm :
      (eq : Row → Row → Bool) (snapshot : Types.RegisterSnapshot Row) (kind : Types.RunKind)
      (breaker : Breaker) (p : Planned Row)
      → tripped eq snapshot kind breaker (counts_of eq snapshot p) ≡ none
      → outcome eq snapshot kind breaker p ≡ apply_or_nothing eq snapshot p
  unfolding outcome
  outcome_calm eq snapshot kind breaker p e = rw (e, outcome) refl

  pub outcome-tripped :
      (eq : Row → Row → Bool) (snapshot : Types.RegisterSnapshot Row) (kind : Types.RunKind)
      (breaker : Breaker) (p : Planned Row) (reason : Types.AbortReason)
      → tripped eq snapshot kind breaker (counts_of eq snapshot p) ≡ some reason
      → outcome eq snapshot kind breaker p
        ≡ Types.SyncOutcome.abort reason (counts_of eq snapshot p)
  unfolding outcome
  outcome-tripped eq snapshot kind breaker p reason e = rw (e, outcome) refl

  -- Accepting a mass change returns what an enforced run returns, except where that run aborts for a
  -- mass change; it then returns what would have been applied.
  pub outcome-accept :
      (eq : Row → Row → Bool) (snapshot : Types.RegisterSnapshot Row) (p : Planned Row)
      → (outcome eq snapshot Types.RunKind.sync enforce p
          ≡ outcome eq snapshot Types.RunKind.sync accept p)
        ⊎ ((reason : Types.AbortReason) × (mass_change snapshot (counts_of eq snapshot p)
              ≡ some reason)
            × (outcome eq snapshot Types.RunKind.sync enforce p
                ≡ Types.SyncOutcome.abort reason (counts_of eq snapshot p))
            × (outcome eq snapshot Types.RunKind.sync accept p ≡ apply_or_nothing eq snapshot p))
  unfolding tripped
  outcome-accept eq snapshot p =
      let accepted = outcome_calm eq snapshot Types.RunKind.sync accept p refl in
      elim (Option-cases (mass_change snapshot (counts_of eq snapshot p))) [
        | inl e ↦ inl (outcome_calm eq snapshot Types.RunKind.sync enforce p e ∙ sym accepted)
        | inr (reason, e) ↦
            inr (
              reason,
              e,
              outcome-tripped eq snapshot Types.RunKind.sync enforce p reason e,
              accepted,
            )
      ]

  -- A plan that an enforced run applies is the planners' and has an operation or a review; where some
  -- school counts as active, it closes at most two in a hundred of these schools, renames at most five,
  -- and takes an attribute from at most five.
  pub outcome-enforce :
      (eq : Row → Row → Bool) (snapshot : Types.RegisterSnapshot Row) (p : Planned Row)
      (plan : Types.SyncPlan Row)
      → outcome eq snapshot Types.RunKind.sync enforce p ≡ Types.SyncOutcome.apply plan
      → 0 < countable_schools snapshot
      → ((plan.municipality_ops ≡ p.municipality_ops)
          × (plan.school_ops ≡ p.school_ops)
          × (plan.reviews ≡ p.reviews))
        × ((is_empty plan.municipality_ops && (is_empty plan.school_ops && is_empty plan.reviews))
            ≡ false)
        × (length (filter is_close plan.school_ops) * 100 ≤ countable_schools snapshot * 2)
        × (length (filter is_rename plan.school_ops) * 100 ≤ countable_schools snapshot * 5)
        × (attribute_losses eq snapshot plan.school_ops * 100 ≤ countable_schools snapshot * 5)
  unfolding tripped counts_of
  outcome-enforce eq snapshot p plan h some_active =
      elim (Option-cases (mass_change snapshot (counts_of eq snapshot p))) [
        | inl e ↦
            let (filled, a, b, c) =
              applied_plan eq snapshot p plan
                (sym (outcome_calm eq snapshot Types.RunKind.sync enforce p e) ∙ h) in
            let t = tally_lem p.municipality_ops p.school_ops (length p.reviews) p.skipped in
            let (x, y, z) = within snapshot (counts_of eq snapshot p) some_active e in
            (
              (a, b, c),
              rw (a, b, c) filled,
              rw b (omega (arith, t, x)),
              rw b (omega (arith, t, y)),
              rw b z,
            )
        | inr (reason, e) ↦
            absurd (cc (outcome-tripped eq snapshot Types.RunKind.sync enforce p reason e, h))
      ]
