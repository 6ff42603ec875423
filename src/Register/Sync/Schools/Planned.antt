-- ===== src/Register/Sync/Schools/Planned.antt =====
-- schools.rs: which schools a plan closes and creates.
use mathlib.Core.List.{append_assoc, append-nil, flat_map}
use fau_portalen.Prelude.{
  ℕ, ◌+◌, ◌≡◌, refl, sym, ap, ◌∙◌, Option, none, some, Bool, List, [], ◌∷◌, ◌++◌, map, compare,
  either_way, chain_some,
}
use fau_portalen.Prelude.Map
use fau_portalen.Text.{Text}
use fau_portalen.Register.Source.{NsrUnit}
use fau_portalen.Register.Sync.Types
use fau_portalen.Register.Sync.Municipalities.State.{RowId, MunicipalityState}
use fau_portalen.Register.Sync.Schools.Data.{
  Host, School, Municipality, SchoolPlan, Closing, Candidate, Placement,
}
use fau_portalen.Register.Sync.Schools.Book.{SlugBook}
use fau_portalen.Register.Sync.Schools.Classify.{Sorting, sort_units, nothing_sorted}
use fau_portalen.Register.Sync.Schools.Update.{
  Minted, Pushed, one_op, rename_op, rename_slug, plan_rename, move_op, move_slug, plan_move,
  attribute_ops, attributes_eq, is_moving, plan_update, is_name,
}
use fau_portalen.Register.Sync.Schools.Plan.{
  plan_updates, close_op, create_op, creation, create_all, placing_of, book_of, assembled,
  plan_sorted, plan_schools,
}
use fau_portalen.Register.Sync.Schools.Sorted.{school_of_closing, opens, closes, sort_units-Adds}
use fau_portalen.Register.Sync.Schools.Placed.{place_all-closings}

abbrev Op : Type 0
Op = Types.SchoolOp RowId

-- The schools that operations close, and the schools that they create, with their numbers.
abbrev closed_id : Op → List RowId
closed_id (Types.SchoolOp.close c) = c.id ∷ []
closed_id (Types.SchoolOp.create n) = []
closed_id (Types.SchoolOp.rename r) = []
closed_id (Types.SchoolOp.update_attributes a) = []
closed_id (Types.SchoolOp.move m) = []

abbrev created_school : Op → List (ℕ × Text × Municipality)
created_school (Types.SchoolOp.create n) = (n.new, n.orgnr, n.municipality) ∷ []
created_school (Types.SchoolOp.close c) = []
created_school (Types.SchoolOp.rename r) = []
created_school (Types.SchoolOp.update_attributes a) = []
created_school (Types.SchoolOp.move m) = []

unfoldable pub closed_ids : List Op → List RowId
unfolding flat_map
closed_ids ops = flat_map closed_id ops

unfoldable pub created_schools : List Op → List (ℕ × Text × Municipality)
unfolding flat_map
created_schools ops = flat_map created_school ops

flat_map-append {ℓ κ} :
    {A : Type ℓ} {B : Type κ} (f : A → List B) (xs ys : List A)
    → flat_map f (xs ++ ys) ≡ flat_map f xs ++ flat_map f ys
unfolding flat_map
flat_map-append f [] ys = refl
flat_map-append f (x ∷ xs) ys =
    ap (λ r. f x ++ r) (flat_map-append f xs ys)
    ∙ sym (append_assoc (f x) (flat_map f xs) (flat_map f ys))

-- What a continuing school gives neither closes nor creates.
abbrev IsQuiet : List Op → Type 0
IsQuiet ops = (closed_ids ops ≡ []) × (created_schools ops ≡ [])

append-IsQuiet : (xs ys : List Op) → IsQuiet xs → IsQuiet ys → IsQuiet (xs ++ ys)
unfolding closed_ids created_schools
append-IsQuiet xs ys (a, b) (c, d) = (
  flat_map-append closed_id xs ys ∙ rw (a, c) refl,
  flat_map-append created_school xs ys ∙ rw (b, d) refl,
)

nothing-IsQuiet : IsQuiet []
unfolding closed_ids created_schools flat_map
nothing-IsQuiet = (refl, refl)

one_op-IsQuiet :
    (op : Option Types.SlugChange → Op) (o : Minted) (ops : List Op) (b : SlugBook)
    → ((c : Option Types.SlugChange) → IsQuiet (op c ∷ []))
    → one_op op o ≡ some (ops, b)
    → IsQuiet ops
one_op-IsQuiet op none ops b h e = absurd (cc)
one_op-IsQuiet op (some (slug, b')) ops b h e = let q : op slug ∷ [] ≡ ops = cc in rw (← q) (h slug)

module _ (host : Host) (s : School) (unit : NsrUnit) where
  rename-IsQuiet :
      (town : Option Text) (b b' : SlugBook) (moving : Bool) (ops : List Op)
      → plan_rename host s unit town b moving ≡ some (ops, b')
      → IsQuiet ops
  unfolding plan_rename rename_op closed_ids created_schools flat_map
  rename-IsQuiet town b b' moving ops =
      either_way (λ (p : Pushed). p ≡ some (ops, b') → IsQuiet ops)
        (is_name host s unit town s.register_name)
        (λ t e. let q : [] ≡ ops = cc in rw (← q) nothing-IsQuiet)
        (λ t e.
          one_op-IsQuiet (rename_op host s unit town) (rename_slug host s unit town b moving) ops b'
            (λ c. (refl, refl)) e)

  move-IsQuiet :
      (town : Option Text) (b b' : SlugBook) (to : Municipality) (moving : Bool) (ops : List Op)
      → plan_move host s unit town b to moving ≡ some (ops, b')
      → IsQuiet ops
  unfolding plan_move move_op closed_ids created_schools flat_map
  move-IsQuiet town b b' to moving ops =
      either_way (λ (p : Pushed). p ≡ some (ops, b') → IsQuiet ops) moving
        (λ t e.
          one_op-IsQuiet (move_op host s unit town to) (move_slug host s unit town b to s.slug) ops
            b' (λ c. (refl, refl)) e)
        (λ t e. let q : [] ≡ ops = cc in rw (← q) nothing-IsQuiet)

attributes-IsQuiet : (s : School) (a : Types.SchoolAttributes) → IsQuiet (attribute_ops s a)
unfolding attribute_ops closed_ids created_schools flat_map
attributes-IsQuiet s a =
    either_way IsQuiet (attributes_eq a s.attributes) (λ e. (refl, refl)) (λ e. (refl, refl))

update-IsQuiet :
    (host : Host) (b b' : SlugBook) (s : School) (unit : NsrUnit) (to : Municipality)
    (ops : List Op)
    → plan_update host b s unit to ≡ some (ops, b')
    → IsQuiet ops
unfolding plan_update
update-IsQuiet host b b' s unit to ops h =
    let attributes = Types.from_unit unit in
    let ((renames, c), e, h') =
      chain_some (plan_rename host s unit attributes.post_town b (is_moving s to)) _ (ops, b') h in
    let ((moves, d), f, h'') =
      chain_some (plan_move host s unit attributes.post_town c to (is_moving s to)) _ (ops, b')
        h' in
    let q : renames ++ (attribute_ops s attributes ++ moves) ≡ ops = cc in
    rw (← q) (
      append-IsQuiet renames _ (rename-IsQuiet host s unit _ b c (is_moving s to) renames e) (
        append-IsQuiet (attribute_ops s attributes) moves (attributes-IsQuiet s attributes)
          (move-IsQuiet host s unit _ c d to (is_moving s to) moves f)))

updates-IsQuiet :
    (host : Host) (b b' : SlugBook) (us : List (School × NsrUnit × Municipality)) (ops : List Op)
    → plan_updates host b us ≡ some (ops, b')
    → IsQuiet ops
unfolding plan_updates
updates-IsQuiet host b b' [] ops h = let q : [] ≡ ops = cc in rw (← q) nothing-IsQuiet
updates-IsQuiet host b b' ((s, unit, to) ∷ us) ops h =
    let ((xs, c), e, h') = chain_some (plan_update host b s unit to) _ (ops, b') h in
    let ((ys, d), f, h'') = chain_some (plan_updates host c us) _ (ops, b') h' in
    let q : xs ++ ys ≡ ops = cc in
    rw (← q) (
      append-IsQuiet xs ys (update-IsQuiet host b c s unit to xs e)
        (updates-IsQuiet host c d us ys f))

-- The candidates with their numbers, from a number on.
unfoldable pub numbered_from : ℕ → List Candidate → List (ℕ × Text × Municipality)
numbered_from i [] = []
numbered_from i (c ∷ cs) = (i, c.unit.orgnr, c.municipality) ∷ numbered_from (i + 1) cs

creates_lem :
    (host : Host) (b : SlugBook) (i : ℕ) (cs : List Candidate) (placements : List (ℕ × Placement))
    (ops : List Op)
    → create_all host b i cs placements ≡ some ops
    → (closed_ids ops ≡ []) × (created_schools ops ≡ numbered_from i cs)
unfolding create_all create_op closed_ids created_schools flat_map numbered_from
creates_lem host b i [] placements ops h = let q : [] ≡ ops = cc in rw (← q) (refl, refl)
creates_lem host b i (cand ∷ cs) placements ops h =
    let (c, e, h') = chain_some (creation host b cand i (Map.get compare i placements)) _ ops h in
    let (rest, f, h'') = chain_some (create_all host c.book (i + 1) cs placements) _ ops h' in
    let q : create_op cand i c ∷ rest ≡ ops = cc in
    let (x, y) = creates_lem host c.book (i + 1) cs placements rest f in
    rw (← q) (x, ap (λ l. (i, cand.unit.orgnr, cand.municipality) ∷ l) y)

abbrev pub school_id : School → RowId
school_id s = s.id

closings_lem :
    (cs : List Closing)
    → (closed_ids (map close_op cs) ≡ map school_id (map school_of_closing cs))
      × (created_schools (map close_op cs) ≡ [])
unfolding closed_ids created_schools flat_map close_op
closings_lem [] = (refl, refl)
closings_lem (c ∷ cs) = let (x, y) = closings_lem cs in (ap (λ l. c.school.id ∷ l) x, y)

-- The operations of a plan, by its three parts.
parts_lem :
    (cs : List Closing) (creates updates : List Op) (n : List (ℕ × Text × Municipality))
    → (closed_ids creates ≡ []) × (created_schools creates ≡ n)
    → IsQuiet updates
    → (closed_ids (map close_op cs ++ (creates ++ updates))
        ≡ map school_id (map school_of_closing cs))
      × (created_schools (map close_op cs ++ (creates ++ updates)) ≡ n)
unfolding closed_ids created_schools
parts_lem cs creates updates n (a, b) (c, d) =
    let (x, y) = closings_lem cs in
    let closed : closed_ids (creates ++ updates) ≡ [] =
      flat_map-append closed_id creates updates ∙ rw (a, c) refl in
    let created : created_schools (creates ++ updates) ≡ n ++ [] =
      flat_map-append created_school creates updates ∙ rw (b, d) refl in
    (
      flat_map-append closed_id (map close_op cs) (creates ++ updates)
          ∙ rw (x, closed) (append-nil _),
      flat_map-append created_school (map close_op cs) (creates ++ updates)
          ∙ rw (y, created) (append-nil n),
    )

module _ (host : Host) (snapshot : Types.RegisterSnapshot RowId) where
  sorted_lem :
      (s : Sorting) (plan : SchoolPlan)
      → plan_sorted host snapshot s ≡ some plan
      → (closed_ids plan.ops ≡ map school_id (map school_of_closing s.closings))
        × (created_schools plan.ops ≡ numbered_from 0 s.candidates)
  unfolding plan_sorted assembled placing_of
  sorted_lem s plan h =
      let ((updates, b), e, h') =
        chain_some (plan_updates host (book_of host snapshot s) s.updates) _ plan h in
      let (creates, f, h'') =
        chain_some (create_all host b 0 s.candidates (placing_of host snapshot s).placement) _ plan
          h' in
      let q : assembled host snapshot s (placing_of host snapshot s) creates updates ≡ plan = cc in
      let (x, y) =
        parts_lem (placing_of host snapshot s).closings creates updates _
          (creates_lem host b 0 s.candidates _ creates f)
          (updates-IsQuiet host (book_of host snapshot s) b s.updates updates e) in
      rw (← q) (
        x
            ∙ ap (map school_id)
                (place_all-closings host snapshot s.candidates s.closings s.fau_closings),
        y,
      )

  -- The schools that a plan closes are those that the units close, in the order of the units: a unit
  -- closes the school with its number if the planner follows that school, its municipality is not part
  -- of an unexplained change, the unit is gone or out of scope, and the school has no live FAU. The
  -- schools that a plan creates are numbered from 0 on, one for each unit that opens a school, in the
  -- order of the units: a unit in scope whose number no school of the snapshot has or has had, in a
  -- municipality that its number resolves to.
  pub plan_schools_lem :
      (inputs : Types.SyncInputs) (state : MunicipalityState) (plan : SchoolPlan)
      → plan_schools host snapshot inputs state ≡ some plan
      → (closed_ids plan.ops ≡ map school_id (flat_map (closes snapshot state) inputs.units))
        × (created_schools plan.ops
            ≡ numbered_from 0 (flat_map (opens snapshot state) inputs.units))
  unfolding plan_schools
  plan_schools_lem inputs state plan h =
      let sorted = sort_units host.calendar snapshot state inputs.at nothing_sorted inputs.units in
      let (a, b) =
        sort_units-Adds snapshot state host.calendar inputs.at nothing_sorted inputs.units in
      let (x, y) = sorted_lem sorted plan h in
      (x ∙ ap (map school_id) b, y ∙ ap (numbered_from 0) a)
