-- ===== src/Tests/Register.antt =====
-- Tests of register/scope.rs and of the totals in register/sync.
use fau_portalen.Tests.{ascii}
use fau_portalen.Register.Fold.{collapse, latin_fold, push_char}
use fau_portalen.Register.Search.{search_query, search_text, space, search_text-search_query}
use fau_portalen.Register.Sync.Totals.{zero_counts, attribute_losses, is_loss, loses_a_field}
use fau_portalen.Register.Sync.Outcome.{
  Planned, enforce, outcome, tripped, counts_of, apply_or_nothing,
}
use fau_portalen.Prelude.{
  Bool, ◌==◌, ◌⊎◌, ◌++◌, ℕ, List, ◌<◌, ◌≡◌, ◌↔◌, refl, none, some, true, false, [], ◌∷◌, Memᴰ,
  arith,
}
use fau_portalen.Text.{Text, codes}
use fau_portalen.Register.Scope.{
  NsrScopeFacts, ScopeDecision, IsInScope, classify, classify_iff, classify_nace,
}
use fau_portalen.Register.Sync.Types
use fau_portalen.Register.Sync.Totals.{
  tally, countable_schools, mass_change, count_school_op, count_school_ops, count_municipality_ops,
}

abbrev hosle : NsrScopeFacts
hosle = record {
  is_school = true;
  is_active = true;
  is_primary_school = true;
  municipality_number = codes "3201";
  category_ids = codes "1" ∷ [];
  primary_nace = some (codes "85.201");
}

classify_iff_example : (classify hosle ≡ ScopeDecision.in_scope) ↔ IsInScope hosle
classify_iff_example = classify_iff hosle

classify_runs : classify hosle ≡ ScopeDecision.in_scope
unfolding classify classify_nace
classify_runs = refl

abbrev no_attributes : Types.SchoolAttributes
no_attributes = record {
  ownership = none;
  grade_from = none;
  grade_to = none;
  language = none;
  website = none;
  street_address = none;
  postcode = none;
  post_town = none;
}

abbrev school : Types.SchoolSnapshot ℕ
school = record {
  id = 7;
  municipality_id = 1;
  origin = Types.Origin.register;
  orgnr = some (codes "974590016");
  register_name = some (codes "Hosle skole");
  display_name = codes "Hosle skole";
  display_name_curated = false;
  slug = some (codes "hosle-skole");
  verification = Types.Verification.listed;
  status = Types.SchoolStatus.active;
  in_scope = true;
  scope_override = none;
  has_live_fau = true;
  attributes = no_attributes;
}

abbrev one_school : Types.RegisterSnapshot ℕ
one_school = record {
  municipalities = [];
  schools = school ∷ [];
  school_orgnr_history = [];
  school_slug_history = [];
  municipality_slug_history = [];
}

abbrev updates : List (Types.SchoolOp ℕ)
updates = Types.SchoolOp.update_attributes (record { id = 7; attributes = no_attributes }) ∷ []

abbrev no_ops : List (Types.MunicipalityOp ℕ)
no_ops = []

abbrev same_row : ℕ → ℕ → Bool
same_row a b = a == b

abbrev planned : Planned ℕ
planned = record { municipality_ops = no_ops; school_ops = updates; reviews = []; skipped = 0 }

some_active : 0 < countable_schools one_school
unfolding countable_schools
some_active = omega arith

abbrev applied_plan : Types.SyncPlan ℕ
applied_plan = record {
  municipality_ops = no_ops;
  school_ops = updates;
  reviews = [];
  counts = record zero_counts { schools_updated = 1 };
}

outcome_runs :
    outcome same_row one_school Types.RunKind.sync enforce planned
    ≡ Types.SyncOutcome.apply applied_plan
unfolding outcome tripped counts_of apply_or_nothing mass_change countable_schools attribute_losses
    is_loss tally count_school_ops count_municipality_ops count_school_op loses_a_field
outcome_runs = refl

abbrev school_names : List Text
school_names = codes "Hosle skole" ∷ codes "Bakken" ∷ []

search_text-search_query_example :
    (search_query ascii (codes "Bakken") ≡ [])
    ⊎ ((before : Text) × (after : Text) × (space ∷ search_text ascii school_names
          ≡ before ++ (space ∷ (search_query ascii (codes "Bakken") ++ after))))
search_text-search_query_example =
    search_text-search_query ascii school_names (codes "Bakken") (Memᴰ.tail (Memᴰ.head refl))

search_query_runs : search_query ascii (codes "Hosle, SKOLE!") ≡ codes "hosle skole"
unfolding search_query collapse latin_fold push_char
search_query_runs = refl
