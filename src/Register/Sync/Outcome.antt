-- ===== src/Register/Sync/Outcome.antt =====
-- sync/mod.rs, `plan_with`: what it returns once the two planners have answered.
pub mod Breakers
use fau_portalen.Prelude.{
  ℕ, Option, none, some, Bool, true, false, ◌&&◌, List, ◌++◌, length, is_empty, if◌then◌else◌,
}
use fau_portalen.Register.Sync.Types
use fau_portalen.Register.Sync.Totals.{tally, attribute_losses, mass_change}

pub data Breaker : Type 0 where
  enforce accept : Breaker

-- The test of the run's kind and of the breaker.
abbrev pub is_enforced : Types.RunKind → Breaker → Bool
is_enforced Types.RunKind.sync enforce = true
is_enforced Types.RunKind.sync accept = false
is_enforced Types.RunKind.seed _ = false

-- What the planners return: the operations, all reviews in order, and the number of skipped units.
pub record Planned {ℓ} (Row : Type ℓ) : Type ℓ where
  pub municipality_ops : List (Types.MunicipalityOp Row)
  pub school_ops : List (Types.SchoolOp Row)
  pub reviews : List (Types.ReviewItem Row)
  pub skipped : ℕ

module _ {ℓ} {Row : Type ℓ} (eq : Row → Row → Bool) (snapshot : Types.RegisterSnapshot Row) where
  unfoldable pub counts_of : Planned Row → Types.Counts
  counts_of p = record (tally p.municipality_ops p.school_ops (length p.reviews) p.skipped) {
    attribute_losses = attribute_losses eq snapshot p.school_ops;
  }

  unfoldable pub apply_or_nothing : Planned Row → Types.SyncOutcome Row
  apply_or_nothing p =
      if is_empty p.municipality_ops && (is_empty p.school_ops && is_empty p.reviews)
      then Types.SyncOutcome.no_change
      else Types.SyncOutcome.apply (record {
        municipality_ops = p.municipality_ops;
        school_ops = p.school_ops;
        reviews = p.reviews;
        counts = counts_of p;
      })

  unfoldable pub tripped : Types.RunKind → Breaker → Types.Counts → Option Types.AbortReason
  tripped kind breaker counts =
      if is_enforced kind breaker then mass_change snapshot counts else none

  unfoldable pub outcome : Types.RunKind → Breaker → Planned Row → Types.SyncOutcome Row
  outcome kind breaker p = elim (tripped kind breaker (counts_of p)) [
    | some reason ↦ Types.SyncOutcome.abort reason (counts_of p)
    | none ↦ apply_or_nothing p
  ]
