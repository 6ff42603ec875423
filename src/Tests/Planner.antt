-- ===== src/Tests/Planner.antt =====
-- A run of the planner: a school closes and another follows it, a third is new.
use fau_portalen.Prelude.{insert_by, sort_by}
use fau_portalen.Text.{text_cmp, trim, is_whitespace, split}
use fau_portalen.Register.Fold.{
  map_norwegian, map_letter, map_letters, latin_fold, push_char, collapse_step, collapse_from,
  collapse,
}
use fau_portalen.Register.Slug.{
  rfind, cut_to_len, cap, slugify, make_room_for, municipality_slug, decimal_from, decimal,
  with_suffix, first_numbered, free_with_town, first_free_slug,
}
use fau_portalen.Register.Search.{search_query}
use fau_portalen.Register.Scope.{classify_nace, classify, effective_in_scope, primary_nace}
use fau_portalen.Register.Source.{scope_facts}
use fau_portalen.Calendar.{oslo_today}
use fau_portalen.Register.Sync.Types.Codes.{closure_reason_code}
use fau_portalen.Register.Sync.Totals.{
  loses_a_field, count_create, count_municipality_op, count_school_op, count_municipality_ops,
  count_school_ops, tally, is_loss, attribute_losses, countable_schools, mass_change,
}
use fau_portalen.Register.Sync.Outcome.{counts_of, apply_or_nothing, tripped, outcome}
use fau_portalen.Register.Sync.Similarity.{
  windows, add_all, trigrams_from, trigrams, common_count, union_count, similarity,
}
use fau_portalen.Register.Sync.Municipalities.Groups.{
  is_relevant, group_changes, targets_from, targets_of, count_all, gone_groups_per_target,
  compare_groups, ordered_groups,
}
use fau_portalen.Register.Sync.Municipalities.Renumber.{plan_groups}
use fau_portalen.Register.Sync.Municipalities.Records.{
  compare_official, sorted, same_names, details_differ, compare_records, plan_details, plan_known,
  created, plan_unknown, plan_holder, plan_record, plan_records,
}
use fau_portalen.Register.Sync.Municipalities.State.{holder_of}
use fau_portalen.Register.Sync.Schools.Book.{
  ref_cmp, slug_cmp, take_slug, book_schools, book_history, new_book, release, is_taken, mint,
}
use fau_portalen.Register.Sync.Schools.Classify.{
  school_of, is_former, closure_facts, reregistrable, sort_closure, sort_known, sort_unknown,
  sort_unit, sort_units,
}
use fau_portalen.Register.Sync.Schools.Place.{
  name_similarity, match_closings, match_faus, all_matches, compare_keys, compare_matches,
  change_at, reregistration_review, place_match, place_matches, may_be_unit, best,
  submission_review, submitted_match, place_submissions, place_all,
}
use fau_portalen.Register.Sync.Schools.Update.{
  mint_change, rename_slug, rename_op, plan_rename, move_op, plan_move, attributes_eq,
  attribute_ops, plan_update,
}
use fau_portalen.Register.Sync.Schools.Plan.{
  release_all, take_successors, plan_updates, close_op, creation, create_op, create_all,
  closure_review, closure_reviews, unknown_review, unknown_reviews, placing_of, book_of, assembled,
  plan_sorted, plan_schools,
}
use fau_portalen.Register.Sync.Totals.{zero_counts}
use fau_portalen.Prelude.{
  ℕ, suc, zero, ◌+◌, ◌*◌, ◌≡◌, refl, Option, none, some, true, false, List, [], ◌∷◌, leb,
  if◌then◌else◌, pos,
}
use fau_portalen.Prelude.Map
use fau_portalen.Tests.{ascii, even_months}
use fau_portalen.Text.{Text, codes}
use fau_portalen.Register.Source.{NsrUnit, NsrAddress, MunicipalityRecord}
use fau_portalen.Register.Sync.Types
use fau_portalen.Register.Sync.Municipalities.Plan
use fau_portalen.Register.Sync.Municipalities.State.{MunicipalityState}
use fau_portalen.Register.Sync.Schools.Data
use fau_portalen.Register.Sync.Schools.Data.{Host}
use fau_portalen.Register.Sync.Run

abbrev pub host : Host
host = record {
  unicode = ascii;
  calendar = even_months;
  show_date = λ d. codes "2026-08-01";
  floats = record {
    quotient = λ a b. if leb (b * 6) (a * 10) then 0x3f400000 else 0x3e800000;
    two_decimals = λ x. codes "0.75";
  };
  attempts = 1000;
}

abbrev pub no_attributes : Types.SchoolAttributes
no_attributes = record {
  ownership = none;
  grade_from = none;
  grade_to = none;
  language = none;
  website = none;
  street_address = none;
  postcode = none;
  post_town = none;
}

abbrev pub school : ℕ → Option Text → Text → Option Text → Types.SchoolSnapshot ℕ
school id orgnr name slug = record {
  id = id;
  municipality_id = 1;
  origin = Types.Origin.register;
  orgnr = orgnr;
  register_name = some name;
  display_name = name;
  display_name_curated = false;
  slug = slug;
  verification = Types.Verification.listed;
  status = Types.SchoolStatus.active;
  in_scope = true;
  scope_override = none;
  has_live_fau = false;
  attributes = no_attributes;
}

-- Enough other schools that one closure is no mass change.
abbrev pub others : ℕ → List (Types.SchoolSnapshot ℕ)
others zero = []
others (suc n) = school (100 + n) none (codes "Annen skole") none ∷ others n

abbrev pub lier : Types.MunicipalitySnapshot ℕ
lier = record {
  id = 1;
  number = codes "3312";
  name = codes "Lier";
  official_name = some (codes "Lier");
  county_number = codes "33";
  county_name = codes "Buskerud";
  slug = codes "3312-lier";
  status = Types.MunicipalityStatus.active;
  source = Types.MunicipalitySource.kartverket;
  names = [];
}

abbrev pub lier_record : MunicipalityRecord
lier_record = record {
  number = codes "3312";
  norwegian_name = codes "Lier";
  official_name = codes "Lier";
  county_number = codes "33";
  county_name = codes "Buskerud";
  names = [];
}

abbrev pub snapshot : Types.RegisterSnapshot ℕ
snapshot = record {
  municipalities = lier ∷ [];
  schools =
      school 8 (some (codes "111")) (codes "Eik skole") (some (codes "eik-skole")) ∷ others 50;
  school_orgnr_history = [];
  school_slug_history = [];
  municipality_slug_history = [];
}

abbrev pub nowhere : NsrAddress
nowhere = record { street = none; postcode = none; post_town = none }

abbrev pub unit : Text → Text → NsrUnit
unit orgnr name = record {
  orgnr = orgnr;
  name = name;
  municipality_number = codes "3312";
  is_school = true;
  is_active = true;
  is_primary_school = true;
  is_private = false;
  category_ids = codes "1" ∷ [];
  nace = (pos 1, codes "85.201") ∷ [];
  grade_from = none;
  grade_to = none;
  language = none;
  website = none;
  visiting = nowhere;
  postal = nowhere;
  closure = none;
  changed_at = none;
}

abbrev pub closed_unit : NsrUnit
closed_unit = record (unit (codes "111") (codes "Eik skole")) {
  is_active = false;
  closure = some (record { code = codes "F"; at = none });
}

abbrev pub units : List NsrUnit
units =
    unit (codes "222") (codes "Eik skole")
    ∷ closed_unit
    ∷ unit (codes "333") (codes "Myra skole")
    ∷ []

abbrev pub inputs : Types.SyncInputs
inputs = record {
  municipalities = lier_record ∷ [];
  code_changes = [];
  units = units;
  kind = Types.RunKind.sync;
  at = record { now = 0; today = 100 };
}

abbrev pub creation_of : ℕ → Text → Text → Text → Types.NewSchool ℕ
creation_of i orgnr name slug = record {
  new = i;
  municipality = Types.Ref.existing 1;
  orgnr = orgnr;
  register_name = name;
  display_name = name;
  slug = some slug;
  verification = Types.CreateVerification.listed;
  in_scope = true;
  attributes = record no_attributes { ownership = some Types.Ownership.public };
  source_changed_at = none;
}

abbrev pub closure_of_eik : Types.SchoolClosure ℕ
closure_of_eik = record {
  id = 8;
  reason = Types.ClosureReason.merged;
  closed_on = 100;
  successor = some (Types.Ref.new 0);
}

abbrev pub ops : List (Types.SchoolOp ℕ)
ops =
    Types.SchoolOp.close closure_of_eik
    ∷ Types.SchoolOp.create (creation_of 0 (codes "222") (codes "Eik skole") (codes "eik-skole"))
    ∷ Types.SchoolOp.create (creation_of 1 (codes "333") (codes "Myra skole") (codes "myra-skole"))
    ∷ []

abbrev pub applied : Types.SyncPlan ℕ
applied = record {
  municipality_ops = [];
  school_ops = ops;
  reviews = [];
  counts = record zero_counts { schools_created = 2; schools_closed = 1 };
}

pub plan_runs : Run.plan host snapshot inputs ≡ some (Types.SyncOutcome.apply applied)
unfolding Map.get Map.insert Map.remove insert_by sort_by text_cmp trim is_whitespace split
    map_norwegian map_letter map_letters latin_fold push_char collapse_step collapse_from collapse
    rfind cut_to_len cap slugify make_room_for municipality_slug decimal_from decimal with_suffix
    first_numbered free_with_town first_free_slug search_query classify_nace classify
    effective_in_scope primary_nace scope_facts oslo_today Types.unit_address Types.from_unit
    closure_reason_code loses_a_field count_create count_municipality_op count_school_op
    count_municipality_ops count_school_ops tally is_loss attribute_losses countable_schools
    mass_change counts_of apply_or_nothing tripped outcome windows add_all trigrams_from trigrams
    common_count union_count similarity is_relevant group_changes targets_from targets_of count_all
    gone_groups_per_target compare_groups ordered_groups plan_groups compare_official sorted
    same_names details_differ compare_records plan_details plan_known created plan_unknown
    plan_holder plan_record plan_records Plan.start_row Plan.start_from Plan.is_absent
    Plan.absent_review Plan.review_absent Plan.svalbard_needed Plan.with_svalbard Plan.add_svalbard
    Plan.blocked_ids Plan.finished Plan.planned Plan.plan_municipalities holder_of Data.resolve
    ref_cmp slug_cmp take_slug book_schools book_history new_book release is_taken mint school_of
    is_former closure_facts reregistrable sort_closure sort_known sort_unknown sort_unit sort_units
    name_similarity match_closings match_faus all_matches compare_keys compare_matches change_at
    reregistration_review place_match place_matches may_be_unit best submission_review
    submitted_match place_submissions place_all mint_change rename_slug rename_op plan_rename
    move_op plan_move attributes_eq attribute_ops plan_update release_all take_successors
    plan_updates close_op creation create_op create_all closure_review closure_reviews
    unknown_review unknown_reviews placing_of book_of assembled plan_sorted plan_schools
    Run.empty_source Run.compare_units Run.dedup_after Run.dedup Run.normalised Run.planned
    Run.plan_nonempty Run.plan_with Run.plan Run.plan_accepting_mass_change
plan_runs = refl

-- Without the other schools, closing Eik is a mass change.
abbrev pub few : Types.RegisterSnapshot ℕ
few = record snapshot {
  schools = school 8 (some (codes "111")) (codes "Eik skole") (some (codes "eik-skole")) ∷ [];
}

abbrev pub stopped : Types.SyncOutcome ℕ
stopped =
    Types.SyncOutcome.abort
      (Types.AbortReason.mass_change
        (record { closes = 1; renames = 0; attribute_losses = 0; active = 1 }))
      applied.counts

pub few_stops : Run.plan host few inputs ≡ some stopped
unfolding Map.get Map.insert Map.remove insert_by sort_by text_cmp trim is_whitespace split
    map_norwegian map_letter map_letters latin_fold push_char collapse_step collapse_from collapse
    rfind cut_to_len cap slugify make_room_for municipality_slug decimal_from decimal with_suffix
    first_numbered free_with_town first_free_slug search_query classify_nace classify
    effective_in_scope primary_nace scope_facts oslo_today Types.unit_address Types.from_unit
    closure_reason_code loses_a_field count_create count_municipality_op count_school_op
    count_municipality_ops count_school_ops tally is_loss attribute_losses countable_schools
    mass_change counts_of apply_or_nothing tripped outcome windows add_all trigrams_from trigrams
    common_count union_count similarity is_relevant group_changes targets_from targets_of count_all
    gone_groups_per_target compare_groups ordered_groups plan_groups compare_official sorted
    same_names details_differ compare_records plan_details plan_known created plan_unknown
    plan_holder plan_record plan_records Plan.start_row Plan.start_from Plan.is_absent
    Plan.absent_review Plan.review_absent Plan.svalbard_needed Plan.with_svalbard Plan.add_svalbard
    Plan.blocked_ids Plan.finished Plan.planned Plan.plan_municipalities holder_of Data.resolve
    ref_cmp slug_cmp take_slug book_schools book_history new_book release is_taken mint school_of
    is_former closure_facts reregistrable sort_closure sort_known sort_unknown sort_unit sort_units
    name_similarity match_closings match_faus all_matches compare_keys compare_matches change_at
    reregistration_review place_match place_matches may_be_unit best submission_review
    submitted_match place_submissions place_all mint_change rename_slug rename_op plan_rename
    move_op plan_move attributes_eq attribute_ops plan_update release_all take_successors
    plan_updates close_op creation create_op create_all closure_review closure_reviews
    unknown_review unknown_reviews placing_of book_of assembled plan_sorted plan_schools
    Run.empty_source Run.compare_units Run.dedup_after Run.dedup Run.normalised Run.planned
    Run.plan_nonempty Run.plan_with Run.plan Run.plan_accepting_mass_change
few_stops = refl

pub few_accepts :
    Run.plan_accepting_mass_change host few inputs ≡ some (Types.SyncOutcome.apply applied)
unfolding Map.get Map.insert Map.remove insert_by sort_by text_cmp trim is_whitespace split
    map_norwegian map_letter map_letters latin_fold push_char collapse_step collapse_from collapse
    rfind cut_to_len cap slugify make_room_for municipality_slug decimal_from decimal with_suffix
    first_numbered free_with_town first_free_slug search_query classify_nace classify
    effective_in_scope primary_nace scope_facts oslo_today Types.unit_address Types.from_unit
    closure_reason_code loses_a_field count_create count_municipality_op count_school_op
    count_municipality_ops count_school_ops tally is_loss attribute_losses countable_schools
    mass_change counts_of apply_or_nothing tripped outcome windows add_all trigrams_from trigrams
    common_count union_count similarity is_relevant group_changes targets_from targets_of count_all
    gone_groups_per_target compare_groups ordered_groups plan_groups compare_official sorted
    same_names details_differ compare_records plan_details plan_known created plan_unknown
    plan_holder plan_record plan_records Plan.start_row Plan.start_from Plan.is_absent
    Plan.absent_review Plan.review_absent Plan.svalbard_needed Plan.with_svalbard Plan.add_svalbard
    Plan.blocked_ids Plan.finished Plan.planned Plan.plan_municipalities holder_of Data.resolve
    ref_cmp slug_cmp take_slug book_schools book_history new_book release is_taken mint school_of
    is_former closure_facts reregistrable sort_closure sort_known sort_unknown sort_unit sort_units
    name_similarity match_closings match_faus all_matches compare_keys compare_matches change_at
    reregistration_review place_match place_matches may_be_unit best submission_review
    submitted_match place_submissions place_all mint_change rename_slug rename_op plan_rename
    move_op plan_move attributes_eq attribute_ops plan_update release_all take_successors
    plan_updates close_op creation create_op create_all closure_review closure_reviews
    unknown_review unknown_reviews placing_of book_of assembled plan_sorted plan_schools
    Run.empty_source Run.compare_units Run.dedup_after Run.dedup Run.normalised Run.planned
    Run.plan_nonempty Run.plan_with Run.plan Run.plan_accepting_mass_change
few_accepts = refl

abbrev pub sorted_inputs : Types.SyncInputs
sorted_inputs = record inputs {
  units =
      closed_unit
      ∷ unit (codes "222") (codes "Eik skole")
      ∷ unit (codes "333") (codes "Myra skole")
      ∷ [];
}

abbrev pub state : MunicipalityState
state = record {
  by_number = (codes "3312", Types.Ref.existing 1) ∷ [];
  blocked_numbers = [];
  blocked_ids = [];
}

abbrev pub school_plan : Data.SchoolPlan
school_plan = record { ops = ops; reviews = []; skipped = 0 }

pub plan_schools_runs : plan_schools host snapshot sorted_inputs state ≡ some school_plan
unfolding Map.get Map.insert Map.remove insert_by sort_by text_cmp trim is_whitespace split
    map_norwegian map_letter map_letters latin_fold push_char collapse_step collapse_from collapse
    rfind cut_to_len cap slugify make_room_for municipality_slug decimal_from decimal with_suffix
    first_numbered free_with_town first_free_slug search_query classify_nace classify
    effective_in_scope primary_nace scope_facts oslo_today Types.unit_address Types.from_unit
    closure_reason_code loses_a_field count_create count_municipality_op count_school_op
    count_municipality_ops count_school_ops tally is_loss attribute_losses countable_schools
    mass_change counts_of apply_or_nothing tripped outcome windows add_all trigrams_from trigrams
    common_count union_count similarity is_relevant group_changes targets_from targets_of count_all
    gone_groups_per_target compare_groups ordered_groups plan_groups compare_official sorted
    same_names details_differ compare_records plan_details plan_known created plan_unknown
    plan_holder plan_record plan_records Plan.start_row Plan.start_from Plan.is_absent
    Plan.absent_review Plan.review_absent Plan.svalbard_needed Plan.with_svalbard Plan.add_svalbard
    Plan.blocked_ids Plan.finished Plan.planned Plan.plan_municipalities holder_of Data.resolve
    ref_cmp slug_cmp take_slug book_schools book_history new_book release is_taken mint school_of
    is_former closure_facts reregistrable sort_closure sort_known sort_unknown sort_unit sort_units
    name_similarity match_closings match_faus all_matches compare_keys compare_matches change_at
    reregistration_review place_match place_matches may_be_unit best submission_review
    submitted_match place_submissions place_all mint_change rename_slug rename_op plan_rename
    move_op plan_move attributes_eq attribute_ops plan_update release_all take_successors
    plan_updates close_op creation create_op create_all closure_review closure_reviews
    unknown_review unknown_reviews placing_of book_of assembled plan_sorted plan_schools
    Run.empty_source Run.compare_units Run.dedup_after Run.dedup Run.normalised Run.planned
    Run.plan_nonempty Run.plan_with Run.plan Run.plan_accepting_mass_change
plan_schools_runs = refl
