-- ===== src/Register/Sync/Schools/Total.antt =====
-- schools.rs: with enough attempts, the planner answers.
use fau_portalen.Prelude.{
  ℕ, ◌+◌, ◌*◌, ◌<◌, ◌≤◌, ◌≡◌, refl, Option, none, some, List, [], ◌∷◌, arith, length, ok, err,
  Result, chain_at, compare,
}
use fau_portalen.Prelude.Map
use fau_portalen.Text.{Text}
use fau_portalen.Register.Slug.{SlugError, slugify}
use fau_portalen.Register.Sync.Types
use fau_portalen.Register.Sync.Municipalities.State.{RowId, MunicipalityState}
use fau_portalen.Register.Sync.Schools.Data.{
  Host, SchoolPlan, Closing, Candidate, Placement, successor, held_reregistration, held_submission,
  listed,
}
use fau_portalen.Register.Sync.Schools.Book.{SlugBook, release, new_book, mint}
use fau_portalen.Register.Sync.Schools.Classify.{Sorting, sort_units, nothing_sorted}
use fau_portalen.Register.Sync.Schools.Plan.{
  release_all, take_successor, take_successors, plan_updates, mint_from, listed_with, Creation,
  creation, create_all, create_op, placing_of, book_of, assembled, plan_sorted, plan_schools,
}
use fau_portalen.Register.Sync.Schools.Minting.{
  size, mint-Mints, take_slug-size, release-size, new_book-size,
}
use fau_portalen.Register.Sync.Schools.Updated.{Gives, updates-Gives}
use fau_portalen.Register.Sync.Schools.Work.{work, sort_units-work}
use fau_portalen.Register.Sync.Schools.Placed.{place_all-placed}

release_all-size : (b : SlugBook) (cs : List Closing) → size (release_all b cs) ≤ size b
unfolding release_all
release_all-size b [] = omega arith
release_all-size b (c ∷ cs) =
    omega (arith, release_all-size (release b c.school) cs, release-size b c.school)

take_successor-size :
    (b : SlugBook) (i : ℕ) (cand : Candidate) (o : Option Placement)
    → size (take_successor b i cand o) ≤ size b + 1
take_successor-size b i cand (some (successor (some slug))) =
    take_slug-size b cand.municipality slug (Types.Ref.new i)
take_successor-size b i cand (some (successor none)) = omega arith
take_successor-size b i cand (some held_reregistration) = omega arith
take_successor-size b i cand (some held_submission) = omega arith
take_successor-size b i cand (some listed) = omega arith
take_successor-size b i cand none = omega arith

take_successors-size :
    (b : SlugBook) (i : ℕ) (cs : List Candidate) (ps : List (ℕ × Placement))
    → size (take_successors b i cs ps) ≤ size b + length cs
unfolding take_successors
take_successors-size b i [] ps = omega arith
take_successors-size b i (cand ∷ cs) ps =
    let o = Map.get compare i ps in
    omega (
      arith,
      take_successors-size (take_successor b i cand o) (i + 1) cs ps,
      take_successor-size b i cand o,
    )

mint_from-Gives :
    (host : Host) (b : SlugBook) (cand : Candidate) (i : ℕ) (r : Result SlugError Text)
    → size b < host.attempts
    → Gives 1 b (mint_from host b cand i r)
mint_from-Gives host b cand i (err e) h = (none, b, refl, omega arith)
mint_from-Gives host b cand i (ok base) h =
    let town = (Types.from_unit cand.unit).post_town in
    let m = mint-Mints host b cand.municipality base town (Types.Ref.new i) h in
    (
      some m.slug,
      m.book,
      chain_at (mint host b cand.municipality base town (Types.Ref.new i)) _ (m.slug, m.book) m.is,
      m.grown,
    )

-- A creation that is given, with a book that knows at most one slug more.
abbrev Creates : SlugBook → Option Creation → Type 0
Creates b o = (c : Creation) × (o ≡ some c) × (size c.book ≤ size b + 1)

listed-Creates :
    (b : SlugBook) (o : Option (Option Text × SlugBook)) → Gives 1 b o → Creates b (listed_with o)
listed-Creates b o (slug, b', e, l) = (
  record { verification = Types.CreateVerification.listed; slug = slug; book = b' },
  rw e refl,
  l,
)

creation-Creates :
    (host : Host) (b : SlugBook) (cand : Candidate) (i : ℕ) (p : Placement)
    → size b < host.attempts
    → Creates b (creation host b cand i (some p))
unfolding creation
creation-Creates host b cand i (successor (some slug)) h = (_, refl, omega arith)
creation-Creates host b cand i (successor none) h =
    listed-Creates b _ (mint_from-Gives host b cand i (slugify host.unicode cand.unit.name) h)
creation-Creates host b cand i held_reregistration h = (_, refl, omega arith)
creation-Creates host b cand i held_submission h = (_, refl, omega arith)
creation-Creates host b cand i listed h =
    listed-Creates b _ (mint_from-Gives host b cand i (slugify host.unicode cand.unit.name) h)

create_at :
    (host : Host) (b : SlugBook) (i : ℕ) (cand : Candidate) (cs : List Candidate)
    (ps : List (ℕ × Placement)) (p : Placement) (c : Creation) (ops : List (Types.SchoolOp RowId))
    → Map.get compare i ps ≡ some p
    → creation host b cand i (some p) ≡ some c
    → create_all host c.book (i + 1) cs ps ≡ some ops
    → create_all host b i (cand ∷ cs) ps ≡ some (create_op cand i c ∷ ops)
unfolding create_all
create_at host b i cand cs ps p c ops e f g = rw (create_all, e, f, g) refl

create_all-some :
    (host : Host) (b : SlugBook) (i : ℕ) (cs : List Candidate) (ps : List (ℕ × Placement))
    → ((k : ℕ) → i ≤ k → k < i + length cs → (p : Placement) × (Map.get compare k ps ≡ some p))
    → size b + length cs < host.attempts
    → (ops : List (Types.SchoolOp RowId)) × (create_all host b i cs ps ≡ some ops)
create_all-some host b i [] ps placed h = ([], unfold create_all in refl)
create_all-some host b i (cand ∷ cs) ps placed h =
    let (p, e) = placed i (omega arith) (omega arith) in
    let (c, f, l) = creation-Creates host b cand i p (omega arith) in
    let (ops, g) =
      create_all-some host c.book (i + 1) cs ps (λ k u v. placed k (omega arith) (omega arith))
        (omega arith) in
    (create_op cand i c ∷ ops, create_at host b i cand cs ps p c ops e f g)

module _ (host : Host) (snapshot : Types.RegisterSnapshot RowId) where
  book_of-size :
      (s : Sorting)
      → size (book_of host snapshot s)
        ≤ length snapshot.schools + length snapshot.school_slug_history + length s.candidates
  unfolding book_of
  book_of-size s = omega (
    arith,
    take_successors-size (release_all (new_book snapshot) s.closings) 0 s.candidates
        (placing_of host snapshot s).placement,
    release_all-size (new_book snapshot) s.closings,
    new_book-size snapshot,
  )

  plan_at :
      (s : Sorting) (updates creates : List (Types.SchoolOp RowId)) (b : SlugBook)
      → plan_updates host (book_of host snapshot s) s.updates ≡ some (updates, b)
      → create_all host b 0 s.candidates (placing_of host snapshot s).placement ≡ some creates
      → plan_sorted host snapshot s
        ≡ some (assembled host snapshot s (placing_of host snapshot s) creates updates)
  unfolding plan_sorted
  plan_at s updates creates b e f = rw (plan_sorted, e, f) refl

  sorted-some :
      (s : Sorting)
      → length snapshot.schools + length snapshot.school_slug_history + 2 * work s < host.attempts
      → (plan : SchoolPlan) × (plan_sorted host snapshot s ≡ some plan)
  unfolding placing_of
  sorted-some s h =
      let (updates, b, e, l) =
        updates-Gives host (book_of host snapshot s) s.updates (omega (arith, book_of-size s)) in
      let (creates, f) =
        create_all-some host b 0 s.candidates (placing_of host snapshot s).placement
          (λ k u v.
            place_all-placed host snapshot s.candidates s.closings s.fau_closings k (omega arith))
          (omega (arith, book_of-size s)) in
      (_, plan_at s updates creates b e f)

  -- With more attempts for a numbered slug than there are schools, former slugs and twice the units, the
  -- planner answers: every candidate is placed, and every slug that it wants to mint is found.
  pub plan_schools-some :
      (inputs : Types.SyncInputs) (state : MunicipalityState)
      → length snapshot.schools + length snapshot.school_slug_history + 2 * length inputs.units
        < host.attempts
      → (plan : SchoolPlan) × (plan_schools host snapshot inputs state ≡ some plan)
  unfolding plan_schools
  plan_schools-some inputs state h =
      sorted-some (sort_units host.calendar snapshot state inputs.at nothing_sorted inputs.units) (
        omega (
          arith,
          sort_units-work host.calendar snapshot state inputs.at nothing_sorted inputs.units,
        ))
