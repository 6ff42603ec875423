-- ===== src/Register/Sync/Schools/Classify.antt =====
-- schools.rs: the loop over the units.
use fau_portalen.Prelude.{
  ℕ, ◌+◌, Option, none, some, Bool, true, false, ◌&&◌, ◌||◌, not, List, [], ◌∷◌, ◌++◌, any,
  if◌then◌else◌, ◌==◌,
}
use fau_portalen.Prelude.Map
use fau_portalen.Text.{Text, text_eq, text_cmp, codes}
use fau_portalen.Calendar.{Calendar, Date, Moment, oslo_today}
use fau_portalen.Register.Source.{NsrUnit, NsrClosure, scope_facts}
use fau_portalen.Register.Scope.{classify, effective_in_scope}
use fau_portalen.Register.Sync.Types
use fau_portalen.Register.Sync.Municipalities.State.{RowId, MunicipalityState}
use fau_portalen.Register.Sync.Municipalities.Plan.{is_in_scope}
use fau_portalen.Register.Sync.Schools.Data.{
  School, Municipality, Closing, FauClosing, Candidate, Resolved, to, blocked, unknown, resolve,
}
use fau_portalen.Register.Sync.Schools.Book.{is_closed}

-- `by_orgnr.get(orgnr)`: the last school with the number.
abbrev pub has_orgnr : Text → Option Text → Bool
has_orgnr orgnr none = false
has_orgnr orgnr (some o) = text_eq o orgnr

unfoldable pub school_of : Text → Option School → List School → Option School
school_of orgnr found [] = found
school_of orgnr found (s ∷ ss) =
    school_of orgnr (if has_orgnr orgnr s.orgnr then some s else found) ss

unfoldable pub is_former : Text → List (Text × RowId) → Bool
is_former orgnr history = any (λ (h : Text × RowId). text_eq (h.0) orgnr) history

abbrev pub reason_of : Option NsrClosure → Types.ClosureReason
reason_of none = Types.ClosureReason.closed
reason_of (some c) =
    if text_eq c.code (codes "D")
    then Types.ClosureReason.duplicate
    else if text_eq c.code (codes "F")
    then Types.ClosureReason.merged
    else Types.ClosureReason.closed

abbrev pub closed_at : Calendar → Option NsrClosure → Date → Date
closed_at cal none today = today
closed_at cal (some c) today = elim c.at [ none ↦ today | some t ↦ oslo_today cal t ]

unfoldable pub closure_facts : Calendar → NsrUnit → Moment → Types.ClosureReason × Date
closure_facts cal unit at =
    if unit.is_active
    then (Types.ClosureReason.out_of_scope, at.today)
    else (reason_of unit.closure, closed_at cal unit.closure at.today)

abbrev pub is_f_or_s : Option NsrClosure → Bool
is_f_or_s none = false
is_f_or_s (some c) = text_eq c.code (codes "F") || text_eq c.code (codes "S")

unfoldable pub reregistrable : NsrUnit → Bool
reregistrable unit = not unit.is_active && is_f_or_s unit.closure

-- The variables of the loop.
pub record Sorting : Type 0 where
  pub skipped : ℕ
  pub unknown_numbers : List (Text × List Text)
  pub closings : List Closing
  pub fau_closings : List FauClosing
  pub updates : List (School × NsrUnit × Municipality)
  pub candidates : List Candidate

abbrev pub orgnrs_of : Option (List Text) → List Text
orgnrs_of none = []
orgnrs_of (some os) = os

-- `skipped += 1`, and the unit's number among the unknown.
abbrev pub skip_unknown : Sorting → NsrUnit → Sorting
skip_unknown s unit = record s {
  skipped = s.skipped + 1;
  unknown_numbers =
      Map.insert text_cmp unit.municipality_number
        (orgnrs_of (Map.get text_cmp unit.municipality_number s.unknown_numbers)
          ++ (unit.orgnr ∷ []))
        s.unknown_numbers;
}

abbrev pub skip_blocked : Sorting → Sorting
skip_blocked s = record s { skipped = s.skipped + 1 }

abbrev pub sort_new : Sorting → NsrUnit → Resolved → Sorting
sort_new s unit (to m) = record s {
  candidates = s.candidates ++ (record { unit = unit; municipality = m } ∷ []);
}
sort_new s unit blocked = skip_blocked s
sort_new s unit unknown = skip_unknown s unit

abbrev pub sort_update : Sorting → School → NsrUnit → Resolved → Sorting
sort_update s school unit (to m) = record s { updates = s.updates ++ ((school, unit, m) ∷ []) }
sort_update s school unit blocked = skip_blocked s
sort_update s school unit unknown = skip_unknown s unit

abbrev pub is_listed_or_verified : Types.Verification → Bool
is_listed_or_verified Types.Verification.listed = true
is_listed_or_verified Types.Verification.verified = true
is_listed_or_verified Types.Verification.pending = false
is_listed_or_verified Types.Verification.rejected = false
is_listed_or_verified Types.Verification.held = false

unfoldable pub sort_closure : Calendar → Moment → Sorting → School → NsrUnit → Sorting
sort_closure cal at s school unit =
    let (reason, closed_on) = closure_facts cal unit at in
    if school.has_live_fau
    then record s {
      fau_closings =
          s.fau_closings
          ++ (record {
            school = school;
            reregistrable = reregistrable unit;
            reason = reason;
            closed_on = closed_on;
            reregistered = false;
          }
              ∷ []);
    }
    else record s {
      closings =
          s.closings
          ++ (record {
            school = school;
            reason = reason;
            closed_on = closed_on;
            reregistrable = reregistrable unit;
            successor = none;
          }
              ∷ []);
    }

module _ (cal : Calendar) (snapshot : Types.RegisterSnapshot RowId) (state : MunicipalityState)
    (at : Moment) where
  -- What follows for a unit with a school.
  unfoldable pub sort_known : Sorting → NsrUnit → Bool → School → Sorting
  sort_known s unit classified school =
      if is_closed school.status || not (is_listed_or_verified school.verification)
      then s
      else if any (λ i. i == school.municipality_id) state.blocked_ids
      then skip_blocked s
      else if not unit.is_active || not (effective_in_scope classified school.scope_override)
      then sort_closure cal at s school unit
      else sort_update s school unit (resolve state unit.municipality_number)

  unfoldable pub sort_unknown : Sorting → NsrUnit → Bool → Sorting
  sort_unknown s unit classified =
      if classified && not (is_former unit.orgnr snapshot.school_orgnr_history)
      then sort_new s unit (resolve state unit.municipality_number)
      else s

  -- One round of the loop.
  unfoldable pub sort_unit : Sorting → NsrUnit → Sorting
  sort_unit s unit =
      let classified = is_in_scope (classify (scope_facts unit)) in
      elim (school_of unit.orgnr none snapshot.schools) [
        | none ↦ sort_unknown s unit classified
        | some school ↦ sort_known s unit classified school
      ]

  unfoldable pub sort_units : Sorting → List NsrUnit → Sorting
  sort_units s [] = s
  sort_units s (unit ∷ units) = sort_units (sort_unit s unit) units

abbrev pub nothing_sorted : Sorting
nothing_sorted = record {
  skipped = 0;
  unknown_numbers = [];
  closings = [];
  fau_closings = [];
  updates = [];
  candidates = [];
}
