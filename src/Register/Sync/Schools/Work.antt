-- ===== src/Register/Sync/Schools/Work.antt =====
-- schools.rs: how many updates and candidates the units give.
use fau_portalen.Prelude.{
  ℕ, ◌+◌, ◌≤◌, Option, none, some, Bool, ◌&&◌, ◌||◌, not, List, [], ◌∷◌, arith, length,
  length-append, any, either_way, ◌==◌,
}
use fau_portalen.Calendar.{Calendar, Moment}
use fau_portalen.Register.Source.{NsrUnit, scope_facts}
use fau_portalen.Register.Scope.{classify, effective_in_scope}
use fau_portalen.Register.Sync.Municipalities.Plan.{is_in_scope}
use fau_portalen.Register.Sync.Types
use fau_portalen.Register.Sync.Municipalities.State.{RowId, MunicipalityState}
use fau_portalen.Register.Sync.Schools.Data.{School, resolve, Resolved}
use fau_portalen.Register.Sync.Schools.Book.{is_closed}
use fau_portalen.Register.Sync.Schools.Classify.{
  Sorting, sort_units, sort_unit, sort_new, sort_update, sort_closure, sort_known, sort_unknown,
  is_listed_or_verified, is_former, school_of,
}

-- A round of the sorting adds an update, a candidate, or neither.
abbrev pub work : Sorting → ℕ
work s = length s.updates + length s.candidates

module _ (cal : Calendar) (snapshot : Types.RegisterSnapshot RowId) (state : MunicipalityState)
    (at : Moment) where
  new-work : (s : Sorting) (unit : NsrUnit) (r : Resolved) → work (sort_new s unit r) ≤ work s + 1
  new-work s unit (Resolved.to m) =
      omega (arith, length-append s.candidates (record { unit = unit; municipality = m } ∷ []))
  new-work s unit Resolved.blocked = omega arith
  new-work s unit Resolved.unknown = omega arith

  update-work :
      (s : Sorting) (school : School) (unit : NsrUnit) (r : Resolved)
      → work (sort_update s school unit r) ≤ work s + 1
  update-work s school unit (Resolved.to m) =
      omega (arith, length-append s.updates ((school, unit, m) ∷ []))
  update-work s school unit Resolved.blocked = omega arith
  update-work s school unit Resolved.unknown = omega arith

  abbrev Grows : Sorting → Sorting → Type 0
  Grows s s' = work s' ≤ work s + 1

  closure-work :
      (s : Sorting) (school : School) (unit : NsrUnit) → Grows s (sort_closure cal at s school unit)
  unfolding sort_closure
  closure-work s school unit =
      either_way (Grows s) school.has_live_fau (λ t. omega arith) (λ t. omega arith)

  known-work :
      (s : Sorting) (unit : NsrUnit) (classified : Bool) (school : School)
      → Grows s (sort_known cal snapshot state at s unit classified school)
  unfolding sort_known
  known-work s unit classified school =
      either_way (Grows s)
        (is_closed school.status || not (is_listed_or_verified school.verification))
        (λ t. omega arith)
        (λ t.
          either_way (Grows s) (any (λ i. i == school.municipality_id) state.blocked_ids)
            (λ t. omega arith)
            (λ t.
              either_way (Grows s)
                (not unit.is_active || not (effective_in_scope classified school.scope_override))
                (λ t. closure-work s school unit)
                (λ t. update-work s school unit (resolve state unit.municipality_number))))

  unknown-work :
      (s : Sorting) (unit : NsrUnit) (classified : Bool)
      → Grows s (sort_unknown cal snapshot state at s unit classified)
  unfolding sort_unknown
  unknown-work s unit classified =
      either_way (Grows s) (classified && not (is_former unit.orgnr snapshot.school_orgnr_history))
        (λ t. new-work s unit (resolve state unit.municipality_number)) (λ t. omega arith)

  unit-work : (s : Sorting) (unit : NsrUnit) → Grows s (sort_unit cal snapshot state at s unit)
  unfolding sort_unit
  unit-work s unit = by_school (school_of unit.orgnr none snapshot.schools)
    where
      by_school :
          (o : Option School)
          → Grows s (elim o [
            | none ↦
                sort_unknown cal snapshot state at s unit
                  (is_in_scope (classify (scope_facts unit)))
            | some school ↦
                sort_known cal snapshot state at s unit
                  (is_in_scope (classify (scope_facts unit)))
                  school
          ])
      by_school none = unknown-work s unit _
      by_school (some school) = known-work s unit _ school

  pub sort_units-work :
      (s : Sorting) (units : List NsrUnit)
      → work (sort_units cal snapshot state at s units) ≤ work s + length units
  unfolding sort_units
  sort_units-work s [] = omega arith
  sort_units-work s (unit ∷ units) =
      omega
        (arith, sort_units-work (sort_unit cal snapshot state at s unit) units, unit-work s unit)
