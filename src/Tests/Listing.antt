-- ===== src/Tests/Listing.antt =====
-- Tests of directory/listing.rs.
use Prim.Native.Nat.{Ordering}
use fau_portalen.Prelude.{insert_by, sort_by, ℕ, ◌≡◌, refl, none, some, false, List, [], ◌∷◌, Memᴰ}
use fau_portalen.Text.{Text, codes}
use fau_portalen.Directory.Listing.{
  Section, SectionId, Person, ShownName, arrange, arrange_person, people_in_order, first_people,
  compare_people, compare_names,
}
use fau_portalen.Directory.Listing.Kept.{has, has_repeat, ids_of}
use fau_portalen.Directory.Listing.Arranged.{IsShownAs, IsListedAs, arrange_lem}

-- A collation under which all texts are alike.
abbrev alike : Text → Text → Ordering
alike a b = Ordering.eq

abbrev person : ℕ → Person
person i = record {
  membership_id = i;
  name = ShownName.unnamed;
  address = record { text = codes "a@fau.no" };
  is_guest = false;
  roles = [];
  groups = 5 ∷ [];
}

abbrev persons : List Person
persons = person 3 ∷ person 1 ∷ person 3 ∷ []

abbrev sections : List Section
sections =
    record { id = SectionId.group 5; title = some (codes "Styret"); members = 9 ∷ 3 ∷ [] }
    ∷ record { id = SectionId.fau; title = none; members = 3 ∷ 1 ∷ 3 ∷ [] }
    ∷ []

arrange_example :
    (has_repeat (ids_of (arrange alike sections persons).people) ≡ false)
    × ((i : ℕ) → has i (ids_of (arrange alike sections persons).people) ≡ has i (ids_of persons))
    × ((p : Person)
        → Memᴰ p (arrange alike sections persons).people
        → (g : Person) × Memᴰ g persons × IsShownAs sections g p)
    × ((s : Section)
        → Memᴰ s (arrange alike sections persons).sections
        → (g : Section) × Memᴰ g sections × IsListedAs persons g s)
    × ((g : Section)
        → Memᴰ g sections
        → (s : Section) × Memᴰ s (arrange alike sections persons).sections × IsListedAs persons g s)
arrange_example = arrange_lem alike sections persons

arrange_runs : ids_of (arrange alike sections persons).people ≡ 1 ∷ 3 ∷ []
unfolding arrange arrange_person people_in_order sort_by insert_by first_people compare_people
    compare_names
arrange_runs = refl
