-- ===== src/Register/Sync/Municipalities/Plan.antt =====
-- municipalities.rs, `plan_municipalities`.
use fau_portalen.Prelude.{
  compare, sort_by, Option, none, some, Bool, true, false, ◌&&◌, not, List, [], ◌∷◌, ◌++◌, map, any,
  if◌then◌else◌,
}
use fau_portalen.Prelude.Map
use fau_portalen.Text.{Text, Unicode, text_eq, text_cmp, codes}
use fau_portalen.Register.Source.{MunicipalityRecord, NsrUnit, scope_facts}
use fau_portalen.Register.Scope.{ScopeDecision, classify}
use fau_portalen.Register.Sync.Types
use fau_portalen.Register.Sync.Municipalities.State.{
  RowId, has_number, Working, Planning, MunicipalityPlan, is_active, is_manual,
}
use fau_portalen.Register.Sync.Municipalities.Groups.{
  group_changes, gone_groups_per_target, ordered_groups,
}
use fau_portalen.Register.Sync.Municipalities.Renumber.{plan_groups}
use fau_portalen.Register.Sync.Municipalities.Records.{compare_records, plan_records, push_review}

abbrev pub svalbard_number : Text
svalbard_number = codes "2100"

-- The loop over the snapshot's rows.
unfoldable pub start_row : Planning → Types.MunicipalitySnapshot RowId → Planning
start_row p row =
    if is_active row.status
    then record p {
      by_number = Map.insert text_cmp row.number (Types.Ref.existing row.id) p.by_number;
      working =
          Map.insert compare row.id
            (record { row = row; number = row.number; name = row.name; slug = row.slug }) p.working;
    }
    else p

unfoldable pub start_from : Planning → List (Types.MunicipalitySnapshot RowId) → Planning
start_from p [] = p
start_from p (row ∷ rows) = start_from (start_row p row) rows

abbrev pub nothing_planned : Planning
nothing_planned = record {
  ops = [];
  reviews = [];
  by_number = [];
  working = [];
  blocked_numbers = [];
  next_new = 0;
}

abbrev pub numbers_of : List MunicipalityRecord → List Text
numbers_of records = map (λ (r : MunicipalityRecord). r.number) records

unfoldable pub is_absent : List Text → List Text → Working → Bool
is_absent kartverket blocked_numbers w =
    not (is_manual w.row.source)
    && (not (has_number w.number kartverket) && not (has_number w.number blocked_numbers))

unfoldable pub absent_review : Working → Types.ReviewItem RowId
absent_review w = record {
  kind = Types.ReviewKind.municipality_split_or_merge;
  school = none;
  other_school = none;
  municipality = some (Types.Ref.existing w.row.id);
  details =
      (codes "reason", codes "absent_from_kartverket")
      ∷ (codes "number", w.number)
      ∷ (codes "name", w.name)
      ∷ [];
}

-- The loop over `working.values()`.
unfoldable pub review_absent : List Text → Planning → List (RowId × Working) → Planning
review_absent kartverket p [] = p
review_absent kartverket p ((id, w) ∷ ws) =
    let reviewed = push_review p (absent_review w) in
    review_absent kartverket (if is_absent kartverket p.blocked_numbers w then reviewed else p) ws

abbrev pub is_in_scope : ScopeDecision → Bool
is_in_scope ScopeDecision.in_scope = true
is_in_scope (ScopeDecision.out_of_scope reason) = false

unfoldable pub svalbard_needed : List NsrUnit → Bool
svalbard_needed units =
    any
      (λ (u : NsrUnit).
        text_eq u.municipality_number svalbard_number && is_in_scope (classify (scope_facts u)))
      units

unfoldable pub with_svalbard : Planning → Planning
with_svalbard p = record p {
  ops =
      p.ops
      ++ (Types.MunicipalityOp.create (record {
        new = p.next_new;
        number = svalbard_number;
        name = codes "Svalbard";
        official_name = none;
        county_number = codes "21";
        county_name = codes "Svalbard";
        slug = codes "2100-svalbard";
        names = record { name = codes "Svalbard"; language = codes "no"; priority = 1 } ∷ [];
        source = Types.MunicipalitySource.manual;
      })
          ∷ []);
  by_number = Map.insert text_cmp svalbard_number (Types.Ref.new p.next_new) p.by_number;
}

unfoldable pub add_svalbard : List NsrUnit → Planning → Planning
add_svalbard units p =
    if svalbard_needed units
      && (not (Map.has_key text_cmp svalbard_number p.by_number)
          && not (has_number svalbard_number p.blocked_numbers))
    then with_svalbard p
    else p

-- The ids of `working` that hold a blocked number.
unfoldable pub blocked_ids : List Text → List (RowId × Working) → List RowId
blocked_ids numbers [] = []
blocked_ids numbers ((id, w) ∷ ws) =
    let rest = blocked_ids numbers ws in
    if has_number w.number numbers then w.row.id ∷ rest else rest

unfoldable pub finished : Planning → MunicipalityPlan
finished p = record {
  ops = p.ops;
  reviews = p.reviews;
  state = record {
    by_number = p.by_number;
    blocked_numbers = p.blocked_numbers;
    blocked_ids = blocked_ids p.blocked_numbers p.working;
  };
}

module _ (u : Unicode) (snapshot : Types.RegisterSnapshot RowId) (inputs : Types.SyncInputs) where
  -- The two loops that may panic.
  unfoldable pub planned : Option Planning
  planned =
      let kartverket = numbers_of inputs.municipalities in
      let groups = group_changes kartverket [] inputs.code_changes in
      let gone = gone_groups_per_target [] groups in
      elim (plan_groups u inputs.municipalities gone
        (start_from nothing_planned snapshot.municipalities) (ordered_groups groups)) [
          | none ↦ none
          | some p ↦ plan_records u inputs.kind p (sort_by compare_records inputs.municipalities)
        ]

  unfoldable pub plan_municipalities : Option MunicipalityPlan
  plan_municipalities = elim planned [
    | none ↦ none
    | some p ↦ some (
        finished (
          add_svalbard inputs.units (review_absent (numbers_of inputs.municipalities) p p.working)))
  ]
