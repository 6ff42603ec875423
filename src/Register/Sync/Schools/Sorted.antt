-- ===== src/Register/Sync/Schools/Sorted.antt =====
-- schools.rs: which units the loop collects as candidates, and which schools as closings.
use mathlib.Core.List.{append_assoc, append-nil, flat_map, map-append}
use fau_portalen.Prelude.{
  ◌≡◌, refl, sym, ap, ◌∙◌, Option, none, some, Bool, ◌&&◌, ◌||◌, not, List, [], ◌∷◌, ◌++◌, map, any,
  if◌then◌else◌, ◌==◌, Bool-cases, Option-cases, inl, inr,
}
use fau_portalen.Calendar.{Calendar, Moment}
use fau_portalen.Register.Source.{NsrUnit, scope_facts}
use fau_portalen.Register.Scope.{classify, effective_in_scope}
use fau_portalen.Register.Sync.Types
use fau_portalen.Register.Sync.Municipalities.State.{RowId, MunicipalityState}
use fau_portalen.Register.Sync.Municipalities.Plan.{is_in_scope}
use fau_portalen.Register.Sync.Schools.Data.{
  School, Closing, Candidate, Resolved, to, blocked, unknown, resolve,
}
use fau_portalen.Register.Sync.Schools.Book.{is_closed}
use fau_portalen.Register.Sync.Schools.Classify.{
  Sorting, school_of, is_former, is_listed_or_verified, sort_closure, sort_new, sort_update,
  sort_known, sort_unknown, sort_unit, sort_units,
}

abbrev pub school_of_closing : Closing → School
school_of_closing c = c.school

-- The candidate that an outcome of `resolve` gives, as a list of at most one.
abbrev opened_in : NsrUnit → Resolved → List Candidate
opened_in unit (to m) = record { unit = unit; municipality = m } ∷ []
opened_in unit blocked = []
opened_in unit unknown = []

module _ (snapshot : Types.RegisterSnapshot RowId) (state : MunicipalityState) where
  -- Whether a unit is one that a school is planned for: a school in scope whose number no school of the
  -- snapshot has or has had.
  abbrev in_scope_of : NsrUnit → Bool
  in_scope_of unit = is_in_scope (classify (scope_facts unit))

  abbrev opens_alone : NsrUnit → Option School → List Candidate
  opens_alone unit (some s) = []
  opens_alone unit none =
      if in_scope_of unit && not (is_former unit.orgnr snapshot.school_orgnr_history)
      then opened_in unit (resolve state unit.municipality_number)
      else []

  unfoldable pub opens : NsrUnit → List Candidate
  opens unit = opens_alone unit (school_of unit.orgnr none snapshot.schools)

  -- Whether a school is one that the planner may close for its unit: it is followed, its municipality
  -- is not part of an unexplained change, the unit is gone or out of scope, and it has no live FAU.
  abbrev pub may_close : NsrUnit → School → Bool
  may_close unit s =
      not (is_closed s.status)
      && is_listed_or_verified s.verification
      && not (any (λ i. i == s.municipality_id) state.blocked_ids)
      && (not unit.is_active || not (effective_in_scope (in_scope_of unit) s.scope_override))
      && not s.has_live_fau

  abbrev pub closed_by : NsrUnit → Option School → List School
  closed_by unit none = []
  closed_by unit (some s) = if may_close unit s then s ∷ [] else []

  unfoldable pub closes : NsrUnit → List School
  closes unit = closed_by unit (school_of unit.orgnr none snapshot.schools)

  module _ (cal : Calendar) (at : Moment) where
    opened :
        (s : Sorting) (unit : NsrUnit) (r : Resolved)
        → ((sort_new s unit r).candidates ≡ s.candidates ++ opened_in unit r)
          × ((sort_new s unit r).closings ≡ s.closings)
    opened s unit (to m) = (refl, refl)
    opened s unit blocked = (sym (append-nil s.candidates), refl)
    opened s unit unknown = (sym (append-nil s.candidates), refl)

    updated :
        (s : Sorting) (school : School) (unit : NsrUnit) (r : Resolved)
        → ((sort_update s school unit r).candidates ≡ s.candidates)
          × ((sort_update s school unit r).closings ≡ s.closings)
    updated s school unit (to m) = (refl, refl)
    updated s school unit blocked = (refl, refl)
    updated s school unit unknown = (refl, refl)

    -- A round adds what its unit opens and closes.
    abbrev Adds : Sorting → Sorting → List Candidate → List School → Type 0
    Adds s s' cs ss =
        (s'.candidates ≡ s.candidates ++ cs)
        × (map school_of_closing s'.closings ≡ map school_of_closing s.closings ++ ss)

    Adds-nothing :
        (s s' : Sorting) → s'.candidates ≡ s.candidates → s'.closings ≡ s.closings → Adds s s' [] []
    Adds-nothing s s' e f =
        (e ∙ sym (append-nil s.candidates), ap (map school_of_closing) f ∙ sym (append-nil _))

    unknown-Adds :
        (s : Sorting) (unit : NsrUnit)
        → Adds s
            (sort_unknown cal snapshot state at s unit (in_scope_of unit))
            (opens_alone unit none)
            []
    unfolding sort_unknown
    unknown-Adds s unit =
        elim (Bool-cases
          (in_scope_of unit && not (is_former unit.orgnr snapshot.school_orgnr_history))) [
            | inl e ↦
                let (a, b) = opened s unit (resolve state unit.municipality_number) in
                rw e (a, ap (map school_of_closing) b ∙ sym (append-nil _))
            | inr e ↦ rw e (Adds-nothing s s refl refl)
          ]

    closure-Adds :
        (s : Sorting) (school : School) (unit : NsrUnit)
        → Adds s
            (sort_closure cal at s school unit)
            []
            (if not school.has_live_fau then school ∷ [] else [])
    unfolding sort_closure
    closure-Adds s school unit = elim (Bool-cases school.has_live_fau) [
      | inl e ↦ rw e (sym (append-nil s.candidates), sym (append-nil _))
      | inr e ↦ rw e (sym (append-nil s.candidates), map-append school_of_closing s.closings _)
    ]

    -- The four tests on a unit with a school, by their values.
    known-Adds :
        (s : Sorting) (school : School) (unit : NsrUnit)
        → Adds s
            (sort_known cal snapshot state at s unit (in_scope_of unit) school)
            []
            (closed_by unit (some school))
    unfolding sort_known
    known-Adds s school unit = elim (Bool-cases (is_closed school.status)) [
      | inl a ↦ rw a (Adds-nothing s s refl refl)
      | inr a ↦ elim (Bool-cases (is_listed_or_verified school.verification)) [
        | inr b ↦ rw (a, b) (Adds-nothing s s refl refl)
        | inl b ↦ elim (Bool-cases (any (λ i. i == school.municipality_id) state.blocked_ids)) [
          | inl c ↦ rw (a, b, c) (sym (append-nil s.candidates), sym (append-nil _))
          | inr c ↦
              let gone =
                not unit.is_active
                || not (effective_in_scope (in_scope_of unit) school.scope_override) in
              elim (Bool-cases gone) [
                | inl d ↦ rw (a, b, c, d) (closure-Adds s school unit)
                | inr d ↦
                    let (e, f) = updated s school unit (resolve state unit.municipality_number) in
                    rw (a, b, c, d)
                      (
                        e ∙ sym (append-nil s.candidates),
                        ap (map school_of_closing) f ∙ sym (append-nil _),
                      )
              ]
        ]
      ]
    ]

    sort_unit_at_none :
        (s : Sorting) (unit : NsrUnit)
        → school_of unit.orgnr none snapshot.schools ≡ none
        → sort_unit cal snapshot state at s unit
          ≡ sort_unknown cal snapshot state at s unit (in_scope_of unit)
    unfolding sort_unit
    sort_unit_at_none s unit e = rw (e, sort_unit) refl

    sort_unit_at_some :
        (s : Sorting) (unit : NsrUnit) (school : School)
        → school_of unit.orgnr none snapshot.schools ≡ some school
        → sort_unit cal snapshot state at s unit
          ≡ sort_known cal snapshot state at s unit (in_scope_of unit) school
    unfolding sort_unit
    sort_unit_at_some s unit school e = rw (e, sort_unit) refl

    unit-Adds :
        (s : Sorting) (unit : NsrUnit)
        → Adds s (sort_unit cal snapshot state at s unit) (opens unit) (closes unit)
    unfolding opens closes
    unit-Adds s unit = elim (Option-cases (school_of unit.orgnr none snapshot.schools)) [
      | inl e ↦ rw (sort_unit_at_none s unit e, e) (unknown-Adds s unit)
      | inr (school, e) ↦ rw (sort_unit_at_some s unit school e, e) (known-Adds s school unit)
    ]

    pub sort_units-Adds :
        (s : Sorting) (units : List NsrUnit)
        → Adds s
            (sort_units cal snapshot state at s units)
            (flat_map opens units)
            (flat_map closes units)
    unfolding sort_units flat_map
    sort_units-Adds s [] = Adds-nothing s s refl refl
    sort_units-Adds s (unit ∷ units) =
        let (a, b) = unit-Adds s unit in
        let (c, d) = sort_units-Adds (sort_unit cal snapshot state at s unit) units in
        (
          c ∙ ap (λ l. l ++ flat_map opens units) a ∙ append_assoc s.candidates (opens unit) _,
          d
              ∙ ap (λ l. l ++ flat_map closes units) b
              ∙ append_assoc (map school_of_closing s.closings) (closes unit) _,
        )
