-- ===== src/Directory/Listing/Arranged.antt =====
-- listing.rs, `arrange`: every person once, and in a section only people who are described.
use Prim.Native.Nat.{Ordering}
use mathlib.Core.List.Memᴰ as MemD
use mathlib.Core.List.{Permᴰ}
use fau_portalen.Prelude.{
  sort_by-mem, sort_by-Permᴰ, mem-sort_by, sort_by, Bool-cases, inl, inr, ℕ, ◌≡◌, refl, sym, ap,
  ◌∙◌, false, ◌&&◌, List, [], ◌∷◌, map, Memᴰ, arith,
}
use fau_portalen.Text.{Text}
use fau_portalen.Directory.Listing.{
  Section, Person, groups_of, compare_roles, arrange, arrange_section, arrange_person,
  people_in_order, compare_people, compare_sections, by_place, first_people, retain_known,
}
use fau_portalen.Directory.Listing.Grouped.{groups_of-sort_by, groups_of-arrange_section}
use fau_portalen.Directory.Listing.Kept.{
  has, has_repeat, ids_of, has-sort_by, has_repeat-sort_by, has-retain_known,
  has_repeat-retain_known, has-first_people, has_repeat-first_people,
}

-- Mapping the identity changes nothing.
map_same : (xs : List ℕ) → map (λ (i : ℕ). i) xs ≡ xs
map_same [] = refl
map_same (x ∷ xs) = ap (λ r. x ∷ r) (map_same xs)

-- What the listing keeps of a person: all but the order of the roles, and of the groups those that
-- have a section, each once.
pub record IsShownAs (sections : List Section) (given shown : Person) : Type 0 where
  pub same_id : shown.membership_id ≡ given.membership_id
  pub same_name : shown.name ≡ given.name
  pub same_address : shown.address ≡ given.address
  pub same_standing : shown.is_guest ≡ given.is_guest
  pub same_roles : Permᴰ shown.roles given.roles
  pub groups_once : has_repeat shown.groups ≡ false
  pub same_groups :
      (i : ℕ) → has i shown.groups ≡ (has i given.groups && has i (groups_of sections))

-- What it keeps of a section: its id, its title, and of its members those who are among the people,
-- each once.
pub record IsListedAs (people : List Person) (given shown : Section) : Type 0 where
  pub same_id : shown.id ≡ given.id
  pub same_title : shown.title ≡ given.title
  pub once : has_repeat shown.members ≡ false
  pub same_members : (m : ℕ) → has m shown.members ≡ (has m given.members && has m (ids_of people))

module _ (collate : Text → Text → Ordering) where
  ids_of-arrange_person :
      (placed : List Section) (ps : List Person)
      → ids_of (map (arrange_person collate placed) ps) ≡ ids_of ps
  unfolding arrange_person
  ids_of-arrange_person placed [] = refl
  ids_of-arrange_person placed (p ∷ ps) =
      ap (λ r. p.membership_id ∷ r) (ids_of-arrange_person placed ps)

  has-people_in_order :
      (i : ℕ) (people : List Person)
      → has i (ids_of (people_in_order collate people)) ≡ has i (ids_of people)
  unfolding people_in_order
  has-people_in_order i people =
      has-sort_by (compare_people collate) (λ (p : Person). p.membership_id) i
        (first_people [] people)
      ∙ (has-first_people i [] people ∙ ground arith)

  has_repeat-people_in_order :
      (people : List Person) → has_repeat (ids_of (people_in_order collate people)) ≡ false
  unfolding people_in_order
  has_repeat-people_in_order people =
      has_repeat-sort_by (compare_people collate) (λ (p : Person). p.membership_id)
        (first_people [] people)
      ∙ has_repeat-first_people [] people

  -- Sorting by a comparison of ids keeps the ids that were retained.
  module _ (cmp : ℕ → ℕ → Ordering) (known given : List ℕ) where
    sorted_once : has_repeat (sort_by cmp (retain_known known [] given)) ≡ false
    sorted_once =
        ap has_repeat (sym (map_same _))
        ∙ (has_repeat-sort_by cmp (λ (i : ℕ). i) (retain_known known [] given)
            ∙ (ap has_repeat (map_same _) ∙ has_repeat-retain_known known [] given))

    sorted_has :
        (m : ℕ) → has m (sort_by cmp (retain_known known [] given)) ≡ (has m given && has m known)
    sorted_has m =
        ap (has m) (sym (map_same _))
        ∙ (has-sort_by cmp (λ (i : ℕ). i) m (retain_known known [] given)
            ∙ (ap (has m) (map_same _) ∙ (has-retain_known m known [] given ∙ ground arith)))

  arrange_section-IsListedAs :
      (people : List Person) (s : Section)
      → IsListedAs people s (arrange_section collate (ids_of (people_in_order collate people)) s)
  unfolding arrange_section
  arrange_section-IsListedAs people s =
      let ids = ids_of (people_in_order collate people) in
      record {
        same_id = refl;
        same_title = refl;
        once = sorted_once (by_place ids) ids s.members;
        same_members = λ m.
            sorted_has (by_place ids) ids s.members m
            ∙ ap (λ b. has m s.members && b) (has-people_in_order m people);
      }

  arrange_person-IsShownAs :
      (placed : List Section) (p : Person) → IsShownAs placed p (arrange_person collate placed p)
  unfolding arrange_person
  arrange_person-IsShownAs placed p = record {
    same_id = refl;
    same_name = refl;
    same_address = refl;
    same_standing = refl;
    same_roles = sort_by-Permᴰ (compare_roles collate) p.roles;
    groups_once = sorted_once _ (groups_of placed) p.groups;
    same_groups = sorted_has _ (groups_of placed) p.groups;
  }

  first_people-mem :
      (p : Person) (seen : List ℕ) (ps : List Person) → Memᴰ p (first_people seen ps) → Memᴰ p ps
  unfolding first_people
  first_people-mem p seen [] m = m
  first_people-mem p seen (q ∷ ps) m = elim (Bool-cases (has q.membership_id seen)) [
    | inl e ↦ Memᴰ.tail (first_people-mem p seen ps (rw e at m))
    | inr e ↦ elim (MemD.cases_cons (rw e at m)) [
      | inl r ↦ Memᴰ.head r
      | inr k ↦ Memᴰ.tail (first_people-mem p (q.membership_id ∷ seen) ps k)
    ]
  ]

  people_in_order-mem :
      (p : Person) (people : List Person) → Memᴰ p (people_in_order collate people) → Memᴰ p people
  unfolding people_in_order
  people_in_order-mem p people m =
      first_people-mem p [] people
        (sort_by-mem (compare_people collate) p (first_people [] people) m)

  shown :
      (placed sections : List Section) (g p : Person)
      → IsShownAs placed g (arrange_person collate placed g)
      → p ≡ arrange_person collate placed g
      → ((i : ℕ) → has i (groups_of placed) ≡ has i (groups_of sections))
      → IsShownAs sections g p
  shown placed sections g p a e groups = rw e (record {
    same_id = a.same_id;
    same_name = a.same_name;
    same_address = a.same_address;
    same_standing = a.same_standing;
    same_roles = a.same_roles;
    groups_once = a.groups_once;
    same_groups = λ i. a.same_groups i ∙ ap (λ b. has i g.groups && b) (groups i);
  })

  -- The people listed are the people given, each id once; of a person all is kept, but that the roles are
  -- rearranged, and of the groups those are listed that have a section, each once. The sections listed are the sections given, each with
  -- its id and its title, and with exactly those of its members, each once, who are among the people.
  pub arrange_lem :
      (sections : List Section) (people : List Person)
      → (has_repeat (ids_of (arrange collate sections people).people) ≡ false)
        × ((i : ℕ)
            → has i (ids_of (arrange collate sections people).people) ≡ has i (ids_of people))
        × ((p : Person)
            → Memᴰ p (arrange collate sections people).people
            → (g : Person) × Memᴰ g people × IsShownAs sections g p)
        × ((s : Section)
            → Memᴰ s (arrange collate sections people).sections
            → (g : Section) × Memᴰ g sections × IsListedAs people g s)
        × ((g : Section)
            → Memᴰ g sections
            → (s : Section) × Memᴰ s (arrange collate sections people).sections
              × IsListedAs people g s)
  unfolding arrange
  arrange_lem sections people =
      let ordered = people_in_order collate people in
      let ids = ids_of ordered in
      let sorted = sort_by (compare_sections collate) sections in
      let placed = map (arrange_section collate ids) sorted in
      let same_ids = ids_of-arrange_person placed ordered in
      let groups : (i : ℕ) → has i (groups_of placed) ≡ has i (groups_of sections) = λ i.
        ap (has i) (groups_of-arrange_section collate ids sorted)
        ∙ groups_of-sort_by collate i sections in
      (
        ap has_repeat same_ids ∙ has_repeat-people_in_order people,
        λ i. ap (has i) same_ids ∙ has-people_in_order i people,
        λ p m.
            let (g, k, e) = MemD.of_map (arrange_person collate placed) ordered m in
            (
              g,
              people_in_order-mem g people k,
              shown placed sections g p (arrange_person-IsShownAs placed g) (sym e) groups,
            ),
        λ s m.
            let (g, k, e) = MemD.of_map (arrange_section collate ids) sorted m in
            (
              g,
              sort_by-mem (compare_sections collate) g sections k,
              rw (sym e) (arrange_section-IsListedAs people g),
            ),
        λ g m. (
          arrange_section collate ids g,
          MemD.map (arrange_section collate ids)
              (mem-sort_by (compare_sections collate) g sections m),
          arrange_section-IsListedAs people g,
        ),
      )
