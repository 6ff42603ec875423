-- ===== src/Directory/Listing.antt =====
-- directory/listing.rs: the directory in the order in which the screen shows it. An id, a `Uuid`, is the
-- number that it compares as; the viewer's `NameCollator` is the parameter `collate`.
pub mod Kept
pub mod Grouped
pub mod Arranged
use fau_portalen.Prelude.{
  compare, Ordering, then_by, sort_by, ℕ, suc, Option, none, some, Bool, true, false, ◌&&◌, not,
  List, [], ◌∷◌, map, any, ◌==◌, if◌then◌else◌,
}
use fau_portalen.Text.{Text}
use fau_portalen.Email.{Email}

pub data SectionId : Type 0 where
  fau : SectionId
  group : ℕ → SectionId

pub record Section : Type 0 where
  pub id : SectionId
  pub title : Option Text
  pub members : List ℕ

pub data ShownName : Type 0 where
  named : Text → ShownName
  unnamed : ShownName

pub data Place : Type 0 where
  unit cohort : Text → Place

pub record RoleHeld : Type 0 where
  pub name : Text
  pub place : Option Place

pub record Person : Type 0 where
  pub membership_id : ℕ
  pub name : ShownName
  pub address : Email
  pub is_guest : Bool
  pub roles : List RoleHeld
  pub groups : List ℕ

pub record Listing : Type 0 where
  pub sections : List Section
  pub people : List Person

-- `filter` with a set of the ids seen so far.
unfoldable pub first_people : List ℕ → List Person → List Person
first_people seen [] = []
first_people seen (p ∷ ps) =
    let kept = p ∷ first_people (p.membership_id ∷ seen) ps in
    let skipped = first_people seen ps in
    if any (λ i. p.membership_id == i) seen then skipped else kept

-- `retain`: an id is kept when it is known and was not kept before.
unfoldable pub retain_known : List ℕ → List ℕ → List ℕ → List ℕ
retain_known known seen [] = []
retain_known known seen (m ∷ ms) =
    let kept = m ∷ retain_known known (m ∷ seen) ms in
    let skipped = retain_known known seen ms in
    if any (λ i. m == i) known && not (any (λ i. m == i) seen) then kept else skipped

-- `rank[m]`, the last place at which an id stands. Only ids that stand in the list are looked up; for
-- others the answer is 0.
unfoldable pub place_of : List ℕ → ℕ → Option ℕ
place_of [] m = none
place_of (i ∷ is') m = elim (place_of is' m) [
  | some n ↦ some (suc n)
  | none ↦ if i == m then some 0 else none
]

abbrev pub or_zero : Option ℕ → ℕ
or_zero none = 0
or_zero (some n) = n

abbrev pub by_place : List ℕ → ℕ → ℕ → Ordering
by_place ids a b = compare (or_zero (place_of ids a)) (or_zero (place_of ids b))

-- The title to compare: `as_deref().unwrap_or("")`.
abbrev pub title_text : Option Text → Text
title_text none = []
title_text (some t) = t

unfoldable pub place_text : Option Place → Text
place_text none = []
place_text (some (Place.unit s)) = s
place_text (some (Place.cohort s)) = s

-- `group_rank`: the last place among the sections at which a group stands; looked up for groups that
-- have one.
unfoldable pub group_place : List Section → ℕ → Option ℕ
group_place [] g = none
group_place (s ∷ ss) g = elim (group_place ss g) [
  | some n ↦ some (suc n)
  | none ↦ elim s.id [ SectionId.fau ↦ none | SectionId.group h ↦ if h == g then some 0 else none ]
]

-- The keys of `group_rank`.
abbrev pub groups_of : List Section → List ℕ
groups_of [] = []
groups_of (s ∷ ss) =
    let rest = groups_of ss in elim s.id [ SectionId.fau ↦ rest | SectionId.group h ↦ h ∷ rest ]

module _ (collate : Text → Text → Ordering) where
  unfoldable pub compare_names : ShownName → ShownName → Ordering
  compare_names (named a) (named b) = collate a b
  compare_names (named a) unnamed = Ordering.lt
  compare_names unnamed (named b) = Ordering.gt
  compare_names unnamed unnamed = Ordering.eq

  unfoldable pub compare_people : Person → Person → Ordering
  compare_people a b =
      then_by (compare_names a.name b.name) (compare a.membership_id b.membership_id)

  unfoldable pub compare_ids : SectionId → Option Text → SectionId → Option Text → Ordering
  compare_ids SectionId.fau t SectionId.fau t' = Ordering.eq
  compare_ids SectionId.fau t (SectionId.group y) t' = Ordering.lt
  compare_ids (SectionId.group x) t SectionId.fau t' = Ordering.gt
  compare_ids (SectionId.group x) t (SectionId.group y) t' =
      then_by (collate (title_text t) (title_text t')) (compare x y)

  unfoldable pub compare_sections : Section → Section → Ordering
  compare_sections a b = compare_ids a.id a.title b.id b.title

  unfoldable pub compare_roles : RoleHeld → RoleHeld → Ordering
  compare_roles a b =
      then_by (collate a.name b.name) (collate (place_text a.place) (place_text b.place))

  -- The two loops' bodies.
  unfoldable pub arrange_section : List ℕ → Section → Section
  arrange_section ids s = record s {
    members = sort_by (by_place ids) (retain_known ids [] s.members);
  }

  unfoldable pub arrange_person : List Section → Person → Person
  arrange_person sections p = record p {
    roles = sort_by compare_roles p.roles;
    groups =
        sort_by
          (λ g h. compare (or_zero (group_place sections g)) (or_zero (group_place sections h)))
          (retain_known (groups_of sections) [] p.groups);
  }

  unfoldable pub people_in_order : List Person → List Person
  people_in_order people = sort_by compare_people (first_people [] people)

  unfoldable pub arrange : List Section → List Person → Listing
  arrange sections people =
      let ordered = people_in_order people in
      let ids = map (λ (p : Person). p.membership_id) ordered in
      let placed = map (arrange_section ids) (sort_by compare_sections sections) in
      record { sections = placed; people = map (arrange_person placed) ordered }
