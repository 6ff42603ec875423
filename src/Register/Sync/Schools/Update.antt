-- ===== src/Register/Sync/Schools/Update.antt =====
-- schools.rs, `plan_update`: a continuing school.
use fau_portalen.Prelude.{
  ℕ, ℤ, pos, negsuc, Option, none, some, Bool, true, false, ◌&&◌, ◌||◌, not, List, [], ◌∷◌, ◌++◌,
  ok, err, Result, if◌then◌else◌, ◌==◌,
}
use fau_portalen.Text.{Text, text_eq}
use fau_portalen.Register.Slug.{SlugError, slugify}
use fau_portalen.Register.Source.{NsrUnit}
use fau_portalen.Register.Sync.Types
use fau_portalen.Register.Sync.Municipalities.State.{RowId}
use fau_portalen.Register.Sync.Schools.Data.{Host, School, Municipality}
use fau_portalen.Register.Sync.Schools.Book.{SlugBook, ref_eq, mint}

-- The result of minting a slug, if one is wanted: `none` is a panic.
abbrev pub Minted : Type 0
Minted = Option (Option Types.SlugChange × SlugBook)

abbrev pub new_unless_same : Option Text → Text → Option Types.SlugChange
new_unless_same none new = some (record { old = none; new = new })
new_unless_same (some old) new =
    if text_eq new old then none else some (record { old = some old; new = new })

-- What a part of `plan_update` pushes, and the book after it.
abbrev pub Pushed : Type 0
Pushed = Option (List (Types.SchoolOp RowId) × SlugBook)

abbrev pub one_op : (Option Types.SlugChange → Types.SchoolOp RowId) → Minted → Pushed
one_op op none = none
one_op op (some (slug, b)) = some (op slug ∷ [], b)

module _ (host : Host) (school : School) (unit : NsrUnit) (post_town : Option Text) where
  abbrev pub me : Municipality
  me = Types.Ref.existing school.id

  abbrev pub here : Municipality
  here = Types.Ref.existing school.municipality_id

  unfoldable pub mint_change : SlugBook → Option Text → Text → Minted
  mint_change b old base = elim (mint host b here base post_town me) [
    | none ↦ none
    | some (new, b') ↦ some (new_unless_same old new, b')
  ]

  -- The base from the unit's name: none is minted for a name that gives no slug, or the slug that the
  -- school has.
  abbrev pub change_from : SlugBook → Option Text → Result SlugError Text → Minted
  change_from b old (err e) = some (none, b)
  change_from b none (ok base) = mint_change b none base
  change_from b (some old) (ok base) =
      let minted = mint_change b (some old) base in
      if text_eq base old then some (none, b) else minted

  unfoldable pub rename_slug : SlugBook → Bool → Minted
  rename_slug b moving =
      if moving || school.display_name_curated
      then some (none, b)
      else change_from b school.slug (slugify host.unicode unit.name)

  unfoldable pub rename_op : Option Types.SlugChange → Types.SchoolOp RowId
  rename_op slug = Types.SchoolOp.rename (record {
    id = school.id;
    register_name = unit.name;
    display_name = if school.display_name_curated then none else some unit.name;
    slug = slug;
  })

  -- The first part of `plan_update`: the rename, if the registered name changed.
  abbrev pub is_name : Option Text → Bool
  is_name none = false
  is_name (some name) = text_eq name unit.name

  unfoldable pub plan_rename : SlugBook → Bool → Pushed
  plan_rename b moving =
      if is_name school.register_name then some ([], b) else one_op rename_op (rename_slug b moving)

  -- `slugify(display_name).unwrap_or_else(|_| old)`
  abbrev pub base_or : Result SlugError Text → Text → Text
  base_or (ok base) old = base
  base_or (err e) old = old

  abbrev pub shown_name : Text
  shown_name =
      if not (is_name school.register_name) && not school.display_name_curated
      then unit.name
      else school.display_name

  abbrev pub move_slug : SlugBook → Municipality → Option Text → Minted
  move_slug b to none = some (none, b)
  move_slug b to (some old) =
      elim (mint host b to (base_or (slugify host.unicode shown_name) old) post_town me) [
        | none ↦ none
        | some (new, b') ↦ some (some (record { old = some old; new = new }), b')
      ]

  unfoldable pub move_op : Municipality → Option Types.SlugChange → Types.SchoolOp RowId
  move_op to slug =
      Types.SchoolOp.move
        (record { id = school.id; from = school.municipality_id; to = to; slug = slug })

  -- The last part: the move.
  unfoldable pub plan_move : SlugBook → Municipality → Bool → Pushed
  plan_move b to moving =
      if moving then one_op (move_op to) (move_slug b to school.slug) else some ([], b)

abbrev pub texts_eq : Option Text → Option Text → Bool
texts_eq none none = true
texts_eq none (some b) = false
texts_eq (some a) none = false
texts_eq (some a) (some b) = text_eq a b

abbrev pub ints_eq : Option ℤ → Option ℤ → Bool
ints_eq none none = true
ints_eq none (some b) = false
ints_eq (some a) none = false
ints_eq (some (pos a)) (some (pos b)) = a == b
ints_eq (some (pos a)) (some (negsuc b)) = false
ints_eq (some (negsuc a)) (some (pos b)) = false
ints_eq (some (negsuc a)) (some (negsuc b)) = a == b

abbrev pub ownership_rank : Option Types.Ownership → ℕ
ownership_rank none = 0
ownership_rank (some Types.Ownership.public) = 1
ownership_rank (some Types.Ownership.private) = 2

-- `PartialEq` of the attributes.
unfoldable pub attributes_eq : Types.SchoolAttributes → Types.SchoolAttributes → Bool
attributes_eq a b =
    ownership_rank a.ownership == ownership_rank b.ownership
    && (ints_eq a.grade_from b.grade_from
        && (ints_eq a.grade_to b.grade_to
            && (texts_eq a.language b.language
                && (texts_eq a.website b.website
                    && (texts_eq a.street_address b.street_address
                        && (texts_eq a.postcode b.postcode && texts_eq a.post_town b.post_town))))))

unfoldable pub attribute_ops : School → Types.SchoolAttributes → List (Types.SchoolOp RowId)
attribute_ops s attributes =
    if attributes_eq attributes s.attributes
    then []
    else Types.SchoolOp.update_attributes (record { id = s.id; attributes = attributes }) ∷ []

abbrev pub is_moving : School → Municipality → Bool
is_moving s to = not (ref_eq to (Types.Ref.existing s.municipality_id))

-- The three parts in order.
unfoldable pub plan_update : Host → SlugBook → School → NsrUnit → Municipality → Pushed
plan_update host b s unit to =
    let attributes = Types.from_unit unit in
    elim (plan_rename host s unit attributes.post_town b (is_moving s to)) [
      | none ↦ none
      | some (renames, b') ↦
          elim (plan_move host s unit attributes.post_town b' to (is_moving s to)) [
            | none ↦ none
            | some (moves, b'') ↦ some (renames ++ (attribute_ops s attributes ++ moves), b'')
          ]
    ]
