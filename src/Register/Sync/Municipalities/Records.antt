-- ===== src/Register/Sync/Municipalities/Records.antt =====
-- municipalities.rs: Kartverket's records against the municipalities that hold their numbers.
use fau_portalen.Prelude.{
  is_eq, compare, ◌+◌, Ordering, then_by, sort_by, Option, none, some, Bool, true, false, ◌&&◌,
  ◌||◌, not, List, [], ◌∷◌, ◌++◌, ok, err, Result, if◌then◌else◌,
}
use fau_portalen.Prelude.Map
use fau_portalen.Text.{Text, Unicode, text_eq, text_cmp, codes}
use fau_portalen.Register.Slug.{SlugError, municipality_slug}
use fau_portalen.Register.Source.{MunicipalityRecord, OfficialName}
use fau_portalen.Register.Sync.Types
use fau_portalen.Register.Sync.Municipalities.State.{
  RowId, has_number, Working, Planning, holder_of, is_manual,
}
use fau_portalen.Register.Sync.Municipalities.Renumber.{existing_ref}

unfoldable pub record_review : MunicipalityRecord → Text → Option RowId → Types.ReviewItem RowId
record_review r reason id = record {
  kind = Types.ReviewKind.municipality_split_or_merge;
  school = none;
  other_school = none;
  municipality = existing_ref id;
  details =
      (codes "reason", reason) ∷ (codes "number", r.number) ∷ (codes "name", r.norwegian_name) ∷ [];
}

-- `sorted`: by priority, language and name.
unfoldable pub compare_official : OfficialName → OfficialName → Ordering
compare_official a b =
    then_by (compare a.priority b.priority)
      (then_by (text_cmp a.language b.language) (text_cmp a.name b.name))

unfoldable pub sorted : List OfficialName → List OfficialName
unfolding compare_official
sorted names = sort_by compare_official names

unfoldable pub same_names : List OfficialName → List OfficialName → Bool
same_names [] [] = true
same_names [] (b ∷ bs) = false
same_names (a ∷ as') [] = false
same_names (a ∷ as') (b ∷ bs) =
    is_eq (compare a.priority b.priority)
    && (text_eq a.language b.language && (text_eq a.name b.name && same_names as' bs))

abbrev pub is_text : Option Text → Text → Bool
is_text none t = false
is_text (some s) t = text_eq s t

unfoldable pub details_differ : Types.MunicipalitySnapshot RowId → MunicipalityRecord → Bool
unfolding sorted same_names
details_differ row r =
    not (is_text row.official_name r.official_name)
    || (not (text_eq row.county_number r.county_number)
        || (not (text_eq row.county_name r.county_name)
            || not (same_names (sorted row.names) (sorted r.names))))

unfoldable pub compare_records : MunicipalityRecord → MunicipalityRecord → Ordering
compare_records a b = text_cmp a.number b.number

abbrev pub push_op : Planning → Types.MunicipalityOp RowId → Planning
push_op p op = record p { ops = p.ops ++ (op ∷ []) }

abbrev pub push_review : Planning → Types.ReviewItem RowId → Planning
push_review p item = record p { reviews = p.reviews ++ (item ∷ []) }

-- The arm for a number that an existing municipality holds: its rename, then its details.
abbrev pub rename_pushed :
    Planning → MunicipalityRecord → RowId → Working → Result SlugError Text → Planning
rename_pushed p r id w (ok new_slug) = push_op p (
    Types.MunicipalityOp.rename
      (record { id = id; name = r.norwegian_name; old_slug = w.slug; new_slug = new_slug }))
rename_pushed p r id w (err e) = push_review p (record_review r (codes "unsluggable") (some id))

unfoldable pub plan_details : Planning → MunicipalityRecord → RowId → Working → Planning
plan_details p r id w =
    if details_differ w.row r
    then push_op p (
        Types.MunicipalityOp.update_details (record {
          id = id;
          official_name = some r.official_name;
          county_number = r.county_number;
          county_name = r.county_name;
          names = r.names;
        }))
    else p

unfoldable pub plan_known : Unicode → Planning → MunicipalityRecord → RowId → Working → Planning
plan_known u p r id w =
    if is_manual w.row.source
    then p
    else plan_details
        (if text_eq r.norwegian_name w.name
          then p
          else rename_pushed p r id w (municipality_slug u r.number r.norwegian_name))
        r id w

-- The arm for a number that nobody holds.
unfoldable pub created : Planning → MunicipalityRecord → Text → Planning
created p r slug = record p {
  ops =
      p.ops
      ++ (Types.MunicipalityOp.create (record {
        new = p.next_new;
        number = r.number;
        name = r.norwegian_name;
        official_name = some r.official_name;
        county_number = r.county_number;
        county_name = r.county_name;
        slug = slug;
        names = r.names;
        source = Types.MunicipalitySource.kartverket;
      })
          ∷ []);
  by_number = Map.insert text_cmp r.number (Types.Ref.new p.next_new) p.by_number;
  next_new = p.next_new + 1;
}

unfoldable pub plan_unknown :
    Types.RunKind → Planning → MunicipalityRecord → Result SlugError Text → Planning
plan_unknown Types.RunKind.seed p r (ok slug) = created p r slug
plan_unknown Types.RunKind.seed p r (err e) =
    push_review p (record_review r (codes "unsluggable") none)
plan_unknown Types.RunKind.sync p r _ =
    push_review p (record_review r (codes "unknown_number") none)

module _ (u : Unicode) (kind : Types.RunKind) where
  -- The `match` on the number's holder; `none` is the panic of `working[id]`.
  unfoldable pub plan_holder :
      Planning → MunicipalityRecord → Option (Types.Ref RowId) → Option Planning
  plan_holder p r (some (Types.Ref.existing id)) = elim (Map.get compare id p.working) [
    | none ↦ none
    | some w ↦ some (plan_known u p r id w)
  ]
  plan_holder p r (some (Types.Ref.new n)) = some p
  plan_holder p r none =
      some (plan_unknown kind p r (municipality_slug u r.number r.norwegian_name))

  -- One round of the loop over the records.
  unfoldable pub plan_record : Planning → MunicipalityRecord → Option Planning
  plan_record p r =
      let planned = plan_holder p r (holder_of r.number p.by_number) in
      if has_number r.number p.blocked_numbers then some p else planned

  unfoldable pub plan_records : Planning → List MunicipalityRecord → Option Planning
  plan_records p [] = some p
  plan_records p (r ∷ rs) = elim (plan_record p r) [ none ↦ none | some p' ↦ plan_records p' rs ]
