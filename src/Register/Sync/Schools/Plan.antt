-- ===== src/Register/Sync/Schools/Plan.antt =====
-- schools.rs, `plan_schools`.
use fau_portalen.Prelude.{
  ℕ, ◌+◌, Option, none, some, true, List, [], ◌∷◌, ◌++◌, map, take, length, ok, err, Result,
  if◌then◌else◌,
}
use fau_portalen.Prelude.Map
use fau_portalen.Prelude.{compare}
use fau_portalen.Text.{Text, codes, join}
use fau_portalen.Register.Slug.{SlugError, slugify, decimal}
use fau_portalen.Register.Source.{NsrUnit}
use fau_portalen.Register.Sync.Types
use fau_portalen.Register.Sync.Types.Codes.{closure_reason_code}
use fau_portalen.Register.Sync.Municipalities.State.{RowId, MunicipalityState}
use fau_portalen.Register.Sync.Schools.Data.{
  Host, School, Municipality, SchoolPlan, Closing, FauClosing, Candidate, Placement, successor,
  held_reregistration, held_submission, listed,
}
use fau_portalen.Register.Sync.Schools.Book.{SlugBook, new_book, release, take_slug, mint}
use fau_portalen.Register.Sync.Schools.Classify.{Sorting, nothing_sorted, sort_units}
use fau_portalen.Register.Sync.Schools.Place.{Placing, place_all, orgnr_text}
use fau_portalen.Register.Sync.Schools.Update.{plan_update}

-- `MAX_LISTED_ORGNRS`
abbrev pub max_listed_orgnrs : ℕ
max_listed_orgnrs = 20

unfoldable pub release_all : SlugBook → List Closing → SlugBook
release_all b [] = b
release_all b (c ∷ cs) = release_all (release b c.school) cs

-- A successor takes its predecessor's slug.
abbrev pub take_successor : SlugBook → ℕ → Candidate → Option Placement → SlugBook
take_successor b i cand (some (successor (some slug))) =
    take_slug b cand.municipality slug (Types.Ref.new i)
take_successor b i cand (some (successor none)) = b
take_successor b i cand (some held_reregistration) = b
take_successor b i cand (some held_submission) = b
take_successor b i cand (some listed) = b
take_successor b i cand none = b

unfoldable pub take_successors : SlugBook → ℕ → List Candidate → List (ℕ × Placement) → SlugBook
take_successors b i [] placements = b
take_successors b i (cand ∷ cands) placements =
    take_successors (take_successor b i cand (Map.get compare i placements)) (i + 1) cands
      placements

-- The loop over the updates; the operations go on a list of their own.
unfoldable pub plan_updates :
    Host
    → SlugBook
    → List (School × NsrUnit × Municipality)
    → Option (List (Types.SchoolOp RowId) × SlugBook)
plan_updates host b [] = some ([], b)
plan_updates host b ((s, unit, to) ∷ updates) = elim (plan_update host b s unit to) [
  | none ↦ none
  | some (ops, b') ↦ elim (plan_updates host b' updates) [
    | none ↦ none
    | some (rest, b'') ↦ some (ops ++ rest, b'')
  ]
]

unfoldable pub close_op : Closing → Types.SchoolOp RowId
close_op c = Types.SchoolOp.close (record {
  id = c.school.id;
  reason = c.reason;
  closed_on = c.closed_on;
  successor = c.successor;
})

-- `slugify(name).ok().map(|base| book.mint(..))`
abbrev pub mint_from :
    Host → SlugBook → Candidate → ℕ → Result SlugError Text → Option (Option Text × SlugBook)
mint_from host b cand i (err e) = some (none, b)
mint_from host b cand i (ok base) =
    elim (mint host b cand.municipality base (Types.from_unit cand.unit).post_town
      (Types.Ref.new i)) [ none ↦ none | some (slug, b') ↦ some (some slug, b') ]

-- The verification and the slug that a placement gives; `none` is a panic.
pub record Creation : Type 0 where
  pub verification : Types.CreateVerification
  pub slug : Option Text
  pub book : SlugBook

abbrev pub listed_with : Option (Option Text × SlugBook) → Option Creation
listed_with none = none
listed_with (some (slug, b)) =
    some (record { verification = Types.CreateVerification.listed; slug = slug; book = b })

abbrev pub held_with : SlugBook → Creation
held_with b = record { verification = Types.CreateVerification.held; slug = none; book = b }

unfoldable pub creation : Host → SlugBook → Candidate → ℕ → Option Placement → Option Creation
creation host b cand i none = none
creation host b cand i (some (successor (some slug))) =
    some (record { verification = Types.CreateVerification.listed; slug = some slug; book = b })
creation host b cand i (some held_reregistration) = some (held_with b)
creation host b cand i (some held_submission) = some (held_with b)
creation host b cand i (some (successor none)) =
    listed_with (mint_from host b cand i (slugify host.unicode cand.unit.name))
creation host b cand i (some listed) =
    listed_with (mint_from host b cand i (slugify host.unicode cand.unit.name))

unfoldable pub create_op : Candidate → ℕ → Creation → Types.SchoolOp RowId
create_op cand i c = Types.SchoolOp.create (record {
  new = i;
  municipality = cand.municipality;
  orgnr = cand.unit.orgnr;
  register_name = cand.unit.name;
  display_name = cand.unit.name;
  slug = c.slug;
  verification = c.verification;
  in_scope = true;
  attributes = Types.from_unit cand.unit;
  source_changed_at = cand.unit.changed_at;
})

unfoldable pub create_all :
    Host
    → SlugBook
    → ℕ
    → List Candidate
    → List (ℕ × Placement)
    → Option (List (Types.SchoolOp RowId))
create_all host b i [] placements = some []
create_all host b i (cand ∷ cands) placements =
    elim (creation host b cand i (Map.get compare i placements)) [
      | none ↦ none
      | some c ↦ elim (create_all host c.book (i + 1) cands placements) [
        | none ↦ none
        | some ops ↦ some (create_op cand i c ∷ ops)
      ]
    ]

unfoldable pub closure_review : Host → FauClosing → Types.ReviewItem RowId
closure_review host f = record {
  kind = Types.ReviewKind.closure_with_fau;
  school = some (Types.Ref.existing f.school.id);
  other_school = none;
  municipality = some (Types.Ref.existing f.school.municipality_id);
  details =
      (codes "orgnr", orgnr_text f.school.orgnr)
      ∷ (codes "name", f.school.display_name)
      ∷ (codes "reason", codes (closure_reason_code f.reason))
      ∷ (codes "closed_on", host.show_date f.closed_on)
      ∷ [];
}

unfoldable pub closure_reviews : Host → List FauClosing → List (Types.ReviewItem RowId)
closure_reviews host [] = []
closure_reviews host (f ∷ fs) =
    let rest = closure_reviews host fs in
    if f.reregistered then rest else closure_review host f ∷ rest

unfoldable pub unknown_review : Text → List Text → Types.ReviewItem RowId
unknown_review number orgnrs = record {
  kind = Types.ReviewKind.unknown_municipality_number;
  school = none;
  other_school = none;
  municipality = none;
  details =
      (codes "municipality_number", number)
      ∷ (codes "unit_count", decimal (length orgnrs))
      ∷ (codes "orgnrs", join (b',' ∷ []) (take max_listed_orgnrs orgnrs))
      ∷ [];
}

unfoldable pub unknown_reviews : List (Text × List Text) → List (Types.ReviewItem RowId)
unknown_reviews [] = []
unknown_reviews ((number, orgnrs) ∷ rest) = unknown_review number orgnrs ∷ unknown_reviews rest

module _ (host : Host) (snapshot : Types.RegisterSnapshot RowId) where
  -- The placements, and the book after the closing schools have given up their slugs and the
  -- successors have taken theirs.
  unfoldable pub placing_of : Sorting → Placing
  placing_of s = place_all host snapshot s.candidates s.closings s.fau_closings

  unfoldable pub book_of : Sorting → SlugBook
  unfolding placing_of
  book_of s =
      take_successors (release_all (new_book snapshot) s.closings) 0 s.candidates
        (placing_of s).placement

  unfoldable pub assembled :
      Sorting → Placing → List (Types.SchoolOp RowId) → List (Types.SchoolOp RowId) → SchoolPlan
  assembled s p creates updates = record {
    ops = map close_op p.closings ++ (creates ++ updates);
    reviews =
        p.reviews ++ (closure_reviews host p.fau_closings ++ unknown_reviews s.unknown_numbers);
    skipped = s.skipped;
  }

  unfoldable pub plan_sorted : Sorting → Option SchoolPlan
  plan_sorted s = elim (plan_updates host (book_of s) s.updates) [
    | none ↦ none
    | some (updates, b) ↦ elim (create_all host b 0 s.candidates (placing_of s).placement) [
      | none ↦ none
      | some creates ↦ some (assembled s (placing_of s) creates updates)
    ]
  ]

  unfoldable pub plan_schools : Types.SyncInputs → MunicipalityState → Option SchoolPlan
  plan_schools inputs state =
      plan_sorted (sort_units host.calendar snapshot state inputs.at nothing_sorted inputs.units)
