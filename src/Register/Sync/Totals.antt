-- ===== src/Register/Sync/Totals.antt =====
-- register/sync/mod.rs: the counts of a plan, and the breaker that stops a mass change.
pub mod Tally
use fau_portalen.Prelude.{
  ℕ, ◌+◌, ◌*◌, Option, none, some, Bool, true, false, ◌&&◌, ◌||◌, List, [], ◌∷◌, ltb, if◌then◌else◌,
  length, filter, find,
}
use fau_portalen.Register.Sync.Types

abbrev pub is_none {ℓ} : {A : Type ℓ} → Option A → Bool
is_none none = true
is_none (some a) = false

-- `lost`
abbrev pub lost {ℓ} : {A : Type ℓ} → Option A → Option A → Bool
lost a b = Types.is_some a && is_none b

unfoldable pub loses_a_field : Types.SchoolAttributes → Types.SchoolAttributes → Bool
loses_a_field old new =
    lost old.ownership new.ownership
    || (lost old.grade_from new.grade_from
        || (lost old.grade_to new.grade_to
            || (lost old.language new.language
                || (lost old.website new.website
                    || (lost old.street_address new.street_address
                        || (lost old.postcode new.postcode || lost old.post_town new.post_town))))))

abbrev pub zero_counts : Types.Counts
zero_counts = record {
  municipalities_created = 0;
  municipalities_updated = 0;
  renumbered = 0;
  renamed = 0;
  schools_created = 0;
  schools_renamed = 0;
  schools_updated = 0;
  attribute_losses = 0;
  schools_moved = 0;
  schools_closed = 0;
  schools_held = 0;
  reviews = 0;
  skipped = 0;
}

unfoldable pub count_create : Types.Counts → Types.CreateVerification → Types.Counts
count_create c Types.CreateVerification.listed = record c {
  schools_created = c.schools_created + 1;
}
count_create c Types.CreateVerification.held = record c { schools_held = c.schools_held + 1 }

abbrev pub is_listed_or_verified : Types.Verification → Bool
is_listed_or_verified Types.Verification.listed = true
is_listed_or_verified Types.Verification.verified = true
is_listed_or_verified Types.Verification.pending = false
is_listed_or_verified Types.Verification.rejected = false
is_listed_or_verified Types.Verification.held = false

abbrev pub is_active_school : Types.SchoolStatus → Bool
is_active_school Types.SchoolStatus.active = true
is_active_school Types.SchoolStatus.closed = false

module _ {ℓ} {Row : Type ℓ} where
  -- One round of the loop over the municipality operations.
  unfoldable pub count_municipality_op : Types.Counts → Types.MunicipalityOp Row → Types.Counts
  count_municipality_op c (Types.MunicipalityOp.create _) = record c {
    municipalities_created = c.municipalities_created + 1;
  }
  count_municipality_op c (Types.MunicipalityOp.renumber _) = record c {
    renumbered = c.renumbered + 1;
  }
  count_municipality_op c (Types.MunicipalityOp.rename _) = record c { renamed = c.renamed + 1 }
  count_municipality_op c (Types.MunicipalityOp.update_details _) = record c {
    municipalities_updated = c.municipalities_updated + 1;
  }

  -- One round of the loop over the school operations.
  unfoldable pub count_school_op : Types.Counts → Types.SchoolOp Row → Types.Counts
  unfolding count_create
  count_school_op c (Types.SchoolOp.create s) = count_create c s.verification
  count_school_op c (Types.SchoolOp.rename _) = record c { schools_renamed = c.schools_renamed + 1 }
  count_school_op c (Types.SchoolOp.update_attributes _) = record c {
    schools_updated = c.schools_updated + 1;
  }
  count_school_op c (Types.SchoolOp.move _) = record c { schools_moved = c.schools_moved + 1 }
  count_school_op c (Types.SchoolOp.close _) = record c { schools_closed = c.schools_closed + 1 }

  unfoldable pub count_municipality_ops :
      Types.Counts → List (Types.MunicipalityOp Row) → Types.Counts
  count_municipality_ops c [] = c
  count_municipality_ops c (op ∷ ops) = count_municipality_ops (count_municipality_op c op) ops

  unfoldable pub count_school_ops : Types.Counts → List (Types.SchoolOp Row) → Types.Counts
  count_school_ops c [] = c
  count_school_ops c (op ∷ ops) = count_school_ops (count_school_op c op) ops

  unfoldable pub tally :
      List (Types.MunicipalityOp Row) → List (Types.SchoolOp Row) → ℕ → ℕ → Types.Counts
  tally municipality_ops school_ops reviews skipped =
      count_school_ops
        (count_municipality_ops (record zero_counts { reviews = reviews; skipped = skipped })
          municipality_ops)
        school_ops

  -- The closure over `op` in `attribute_losses`; `eq` is the equality of row ids.
  unfoldable pub is_loss :
      (Row → Row → Bool) → List (Types.SchoolSnapshot Row) → Types.SchoolOp Row → Bool
  unfolding loses_a_field
  is_loss eq schools (Types.SchoolOp.update_attributes u) =
      elim (find (λ (s : Types.SchoolSnapshot Row). eq s.id u.id) schools) [
        | none ↦ false
        | some s ↦ loses_a_field s.attributes u.attributes
      ]
  is_loss eq schools (Types.SchoolOp.create _) = false
  is_loss eq schools (Types.SchoolOp.rename _) = false
  is_loss eq schools (Types.SchoolOp.move _) = false
  is_loss eq schools (Types.SchoolOp.close _) = false

  unfoldable pub attribute_losses :
      (Row → Row → Bool) → Types.RegisterSnapshot Row → List (Types.SchoolOp Row) → ℕ
  unfolding is_loss
  attribute_losses eq snapshot ops = length (filter (is_loss eq snapshot.schools) ops)

  -- `active`, the schools that the percentages are of.
  unfoldable pub countable_schools : Types.RegisterSnapshot Row → ℕ
  countable_schools snapshot = length (
      filter
        (λ (s : Types.SchoolSnapshot Row).
          is_active_school s.status && is_listed_or_verified s.verification)
        snapshot.schools)

  unfoldable pub mass_change : Types.RegisterSnapshot Row → Types.Counts → Option Types.AbortReason
  mass_change snapshot counts =
      let active = countable_schools snapshot in
      if ltb 0 active
        && (ltb (active * 2) (counts.schools_closed * 100)
            || (ltb (active * 5) (counts.schools_renamed * 100)
                || ltb (active * 5) (counts.attribute_losses * 100)))
      then some (
          Types.AbortReason.mass_change (record {
            closes = counts.schools_closed;
            renames = counts.schools_renamed;
            attribute_losses = counts.attribute_losses;
            active = active;
          }))
      else none
