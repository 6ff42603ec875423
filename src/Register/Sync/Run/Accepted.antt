-- ===== src/Register/Sync/Run/Accepted.antt =====
-- sync/mod.rs: a run whose mass change is accepted.
use fau_portalen.Prelude.{
  ◌≡◌, ◌≢◌, ◌⊎◌, inl, inr, refl, sym, ◌∙◌, Option, none, some, Bool, true, false, ◌&&◌, List, [],
  ◌∷◌, arith, is_empty, Option-cases, chain_some, ◌↔◌, either_way,
}
use fau_portalen.Text.{Text, codes}
use fau_portalen.Register.Sync.Types
use fau_portalen.Register.Sync.Totals.{zero_counts, mass_change}
use fau_portalen.Register.Sync.Outcome.{
  Breaker, Planned, outcome, counts_of, apply_or_nothing, tripped,
}
use fau_portalen.Register.Sync.Outcome.Breakers.{outcome_calm, outcome-tripped}
use fau_portalen.Register.Sync.Municipalities.State.{RowId}
use fau_portalen.Register.Sync.Schools.Data.{Host}
use fau_portalen.Register.Sync.Run.{
  normalised, with_units, same_id, planned, plan_nonempty, unless_empty, empty_source, plan_with,
}

list_case : {A : Type 0} (xs : List A) → (xs ≡ []) ⊎ ((x : A) × (ys : List A) × (xs ≡ x ∷ ys))
list_case [] = inl refl
list_case (x ∷ xs) = inr (x, xs, refl)

module _ (snapshot : Types.RegisterSnapshot RowId) where
  -- An abort for a mass change, and not for an empty source.
  abbrev pub is_mass_abort : Types.SyncOutcome RowId → Bool
  is_mass_abort (Types.SyncOutcome.abort (Types.AbortReason.empty_source _) _) = false
  is_mass_abort (Types.SyncOutcome.abort _ _) = true
  is_mass_abort (Types.SyncOutcome.apply _) = false
  is_mass_abort Types.SyncOutcome.no_change = false

  -- The enforced run aborted for a mass change, and accepting it applies the plan that was stopped.
  abbrev pub Stopped : Types.SyncOutcome RowId → Types.SyncOutcome RowId → Type 0
  Stopped enforced accepted =
      (reason : Types.AbortReason) × (q : Types.SyncPlan RowId) × (enforced
        ≡ Types.SyncOutcome.abort reason q.counts)
      × (mass_change snapshot q.counts ≡ some reason)
      × (accepted ≡ Types.SyncOutcome.apply q)

  -- How the answer of an enforced run and that of an accepting one compare.
  abbrev pub IsAccepted : Types.SyncOutcome RowId → Types.SyncOutcome RowId → Type 0
  IsAccepted enforced accepted =
      (is_mass_abort accepted ≡ false)
      × (((is_mass_abort enforced ≡ false) × (enforced ≡ accepted))
          ⊎ ((is_mass_abort enforced ≡ true) × Stopped enforced accepted))

not_for_source :
    (snapshot : Types.RegisterSnapshot RowId) (kind : Types.RunKind) (breaker : Breaker)
    (c : Types.Counts) (source : Text)
    → tripped same_id snapshot kind breaker c ≢ some (Types.AbortReason.empty_source source)
unfolding tripped mass_change
not_for_source snapshot kind breaker c source h = absurd (ground (arith, h))

applies :
    (snapshot : Types.RegisterSnapshot RowId) (p : Planned RowId) (reason : Types.AbortReason)
    (c : Types.Counts)
    → apply_or_nothing same_id snapshot p ≢ Types.SyncOutcome.abort reason c
unfolding apply_or_nothing
applies snapshot p reason c =
    either_way (λ (o : Types.SyncOutcome RowId). o ≢ Types.SyncOutcome.abort reason c)
      (is_empty p.municipality_ops && (is_empty p.school_ops && is_empty p.reviews))
      (λ t e. absurd (cc)) (λ t e. absurd (cc))

outcome-source :
    (snapshot : Types.RegisterSnapshot RowId) (kind : Types.RunKind) (breaker : Breaker)
    (p : Planned RowId) (source : Text) (c : Types.Counts)
    → outcome same_id snapshot kind breaker p
      ≢ Types.SyncOutcome.abort (Types.AbortReason.empty_source source) c
outcome-source snapshot kind breaker p source c h =
    elim (Option-cases (tripped same_id snapshot kind breaker (counts_of same_id snapshot p))) [
      | inl e ↦ applies snapshot p _ c (sym (outcome_calm same_id snapshot kind breaker p e) ∙ h)
      | inr (reason, e) ↦
          let f = sym (outcome-tripped same_id snapshot kind breaker p reason e) ∙ h in
          let same : reason ≡ Types.AbortReason.empty_source source = cc in
          not_for_source snapshot kind breaker _ source (rw same at e)
    ]

-- The first source that is empty: Kartverket's municipalities, then NSR's units.
abbrev pub IsFirstEmpty : Types.SyncInputs → Text → Type 0
IsFirstEmpty inputs source =
    ((inputs.municipalities ≡ []) × (source ≡ codes "kartverket"))
    ⊎ ((inputs.municipalities ≢ []) × (inputs.units ≡ []) × (source ≡ codes "nsr"))

empty_source-IsFirstEmpty :
    (inputs : Types.SyncInputs) (source : Text)
    → (empty_source inputs ≡ some source) ↔ IsFirstEmpty inputs source
unfolding empty_source
empty_source-IsFirstEmpty inputs source = elim (list_case inputs.municipalities) [
  | inl e ↦
      rw e (λ h. inl (refl, cc), λ h. elim h [ inl (p, q) ↦ cc | inr (p, q, r) ↦ absurd (p refl) ])
  | inr (m, ms, e) ↦ elim (list_case inputs.units) [
    | inl f ↦
        rw (e, f)
          (
            λ h. inr (λ q. cc, refl, cc),
            λ h. elim h [ inl (p, q) ↦ absurd (cc) | inr (p, q, r) ↦ cc ],
          )
    | inr (v, vs, f) ↦
        rw (e, f)
          (λ h. absurd (cc), λ h. elim h [ inl (p, q) ↦ absurd (cc) | inr (p, q, r) ↦ absurd (cc) ])
  ]
]

module _ (host : Host) (snapshot : Types.RegisterSnapshot RowId) where
  planners-source :
      (inputs : Types.SyncInputs) (breaker : Breaker) (source : Text) (c : Types.Counts)
      → plan_nonempty host snapshot inputs breaker
        ≢ some (Types.SyncOutcome.abort (Types.AbortReason.empty_source source) c)
  unfolding plan_nonempty
  planners-source inputs breaker source c h =
      let o = planned host snapshot (with_units inputs (normalised inputs.units)) in
      let (p, e, f) =
        chain_some o (λ p. some (outcome same_id snapshot inputs.kind breaker p))
          (Types.SyncOutcome.abort (Types.AbortReason.empty_source source) c) h in
      outcome-source snapshot inputs.kind breaker p source c (cc)

  source_iff :
      (found : Option Text) (o : Option (Types.SyncOutcome RowId)) (source : Text)
      (c : Types.Counts)
      → (o ≢ some (Types.SyncOutcome.abort (Types.AbortReason.empty_source source) c))
      → (unless_empty host snapshot found o
          ≡ some (Types.SyncOutcome.abort (Types.AbortReason.empty_source source) c))
        ↔ ((found ≡ some source) × (c ≡ zero_counts))
  source_iff none o source c n = (λ h. absurd (n h), λ h. absurd (let (a, b) = h in cc))
  source_iff (some s) o source c n = (λ h. (cc, cc), λ h. let (a, b) = h in cc)

  -- A run aborts for an empty source exactly when that source is the first that is empty: Kartverket's
  -- when it gave no municipality, and NSR's when it gave no unit but Kartverket gave a municipality; the
  -- abort counts nothing, and the breaker does not matter.
  pub empty_source_iff :
      (inputs : Types.SyncInputs) (breaker : Breaker) (source : Text) (counts : Types.Counts)
      → (plan_with host snapshot inputs breaker
          ≡ some (Types.SyncOutcome.abort (Types.AbortReason.empty_source source) counts))
        ↔ (IsFirstEmpty inputs source × (counts ≡ zero_counts))
  unfolding plan_with
  empty_source_iff inputs breaker source counts =
      let (f, g) =
        source_iff (empty_source inputs) (plan_nonempty host snapshot inputs breaker) source counts
          (planners-source inputs breaker source counts) in
      let (p, q) = empty_source-IsFirstEmpty inputs source in
      (λ h. let (a, b) = f h in (p a, b), λ h. let (a, b) = h in g (q a, b))
