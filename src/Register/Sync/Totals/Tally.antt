-- ===== src/Register/Sync/Totals/Tally.antt =====
-- sync/mod.rs: `tally` counts every operation once.
use fau_portalen.Prelude.{
  ℕ, ◌+◌, ◌≡◌, Bool, true, false, List, [], ◌∷◌, arith, length, filter, if◌then◌else◌,
}
use fau_portalen.Register.Sync.Types
use fau_portalen.Register.Sync.Totals.{
  count_create, count_municipality_op, count_municipality_ops, count_school_op, count_school_ops,
  tally, zero_counts,
}

-- The sums of the counters of each kind of operation.
abbrev pub municipality_total : Types.Counts → ℕ
municipality_total c =
    c.municipalities_created + c.renumbered + c.renamed + c.municipalities_updated

abbrev pub school_total : Types.Counts → ℕ
school_total c =
    c.schools_created + c.schools_held + c.schools_renamed + c.schools_updated + c.schools_moved
    + c.schools_closed

-- What the loop over the municipality operations leaves.
record MunicipalitiesCounted (c d : Types.Counts) (n : ℕ) : Type 0 where
  total : municipality_total d ≡ municipality_total c + n
  schools : school_total d ≡ school_total c
  closes : d.schools_closed ≡ c.schools_closed
  renames : d.schools_renamed ≡ c.schools_renamed
  losses : d.attribute_losses ≡ c.attribute_losses
  reviews : d.reviews ≡ c.reviews
  skipped : d.skipped ≡ c.skipped

-- What the loop over the school operations leaves.
record SchoolsCounted (c d : Types.Counts) (n closing renaming : ℕ) : Type 0 where
  total : school_total d ≡ school_total c + n
  municipalities : municipality_total d ≡ municipality_total c
  closes : d.schools_closed ≡ c.schools_closed + closing
  renames : d.schools_renamed ≡ c.schools_renamed + renaming
  losses : d.attribute_losses ≡ c.attribute_losses
  reviews : d.reviews ≡ c.reviews
  skipped : d.skipped ≡ c.skipped

module _ {ℓ} {Row : Type ℓ} where
  abbrev pub is_close : Types.SchoolOp Row → Bool
  is_close (Types.SchoolOp.close _) = true
  is_close (Types.SchoolOp.create _) = false
  is_close (Types.SchoolOp.rename _) = false
  is_close (Types.SchoolOp.update_attributes _) = false
  is_close (Types.SchoolOp.move _) = false

  abbrev pub is_rename : Types.SchoolOp Row → Bool
  is_rename (Types.SchoolOp.rename _) = true
  is_rename (Types.SchoolOp.create _) = false
  is_rename (Types.SchoolOp.close _) = false
  is_rename (Types.SchoolOp.update_attributes _) = false
  is_rename (Types.SchoolOp.move _) = false

  municipality_step :
      (c : Types.Counts) (op : Types.MunicipalityOp Row)
      → MunicipalitiesCounted c (count_municipality_op c op) 1
  unfolding count_municipality_op
  municipality_step c (Types.MunicipalityOp.create m) = omega arith
  municipality_step c (Types.MunicipalityOp.renumber m) = omega arith
  municipality_step c (Types.MunicipalityOp.rename m) = omega arith
  municipality_step c (Types.MunicipalityOp.update_details m) = omega arith

  municipalities_counted :
      (c : Types.Counts) (ops : List (Types.MunicipalityOp Row))
      → MunicipalitiesCounted c (count_municipality_ops c ops) (length ops)
  unfolding count_municipality_ops
  municipalities_counted c [] = omega arith
  municipalities_counted c (op ∷ ops) =
      omega (arith, municipality_step c op, municipalities_counted (count_municipality_op c op) ops)

  school_step :
      (c : Types.Counts) (op : Types.SchoolOp Row)
      → SchoolsCounted c
          (count_school_op c op)
          1
          (if is_close op then 1 else 0)
          (if is_rename op then 1 else 0)
  unfolding count_school_op
  school_step c (Types.SchoolOp.create s) = created (s.verification)
    where
      created : (v : Types.CreateVerification) → SchoolsCounted c (count_create c v) 1 0 0
      created Types.CreateVerification.listed = omega arith
      created Types.CreateVerification.held = omega arith
  school_step c (Types.SchoolOp.rename s) = omega arith
  school_step c (Types.SchoolOp.update_attributes s) = omega arith
  school_step c (Types.SchoolOp.move s) = omega arith
  school_step c (Types.SchoolOp.close s) = omega arith

  schools_counted :
      (c : Types.Counts) (ops : List (Types.SchoolOp Row))
      → SchoolsCounted c
          (count_school_ops c ops)
          (length ops)
          (length (filter is_close ops))
          (length (filter is_rename ops))
  unfolding count_school_ops
  schools_counted c [] = omega arith
  schools_counted c (op ∷ ops) =
      ground (arith, school_step c op, schools_counted (count_school_op c op) ops)

  -- The counters of a plan count its operations: those of each kind add up to the number of operations,
  -- the closing and the renaming operations are counted as such, and the reviews and the skipped units
  -- are the given ones.
  pub tally_lem :
      (municipality_ops : List (Types.MunicipalityOp Row)) (school_ops : List (Types.SchoolOp Row))
      (reviews skipped : ℕ)
      → let c = tally municipality_ops school_ops reviews skipped in
        (municipality_total c ≡ length municipality_ops)
        × (school_total c ≡ length school_ops)
        × (c.schools_closed ≡ length (filter is_close school_ops))
        × (c.schools_renamed ≡ length (filter is_rename school_ops))
        × (c.reviews ≡ reviews)
        × (c.skipped ≡ skipped)
  unfolding tally
  tally_lem municipality_ops school_ops reviews skipped =
      let zero : Types.Counts = record zero_counts { reviews = reviews; skipped = skipped } in
      let m = municipalities_counted zero municipality_ops in
      let s = schools_counted (count_municipality_ops zero municipality_ops) school_ops in
      omega (arith, m, s)
