-- ===== src/Register/Sync/Municipalities/Groups.antt =====
-- municipalities.rs: SSB's changes grouped by old code, in the order in which they happened.
use fau_portalen.Prelude.{
  ℕ, ◌+◌, Option, none, some, Bool, ◌&&◌, not, List, [], ◌∷◌, Ordering, compare, then_by, sort_by,
  min_of, if◌then◌else◌,
}
use fau_portalen.Prelude.Map
use fau_portalen.Text.{Text, text_eq, text_cmp}
use fau_portalen.Calendar.{Date}
use fau_portalen.Register.Source.{CodeChange}
use fau_portalen.Register.Sync.Municipalities.State.{has_number}

-- The changes of one old code; a group is made with its first change.
pub record ChangeGroup : Type 0 where
  pub first : CodeChange
  pub rest : List CodeChange

abbrev pub changes_of : ChangeGroup → List CodeChange
changes_of g = g.first ∷ g.rest

abbrev pub append_change : List CodeChange → CodeChange → List CodeChange
append_change [] c = c ∷ []
append_change (d ∷ ds) c = d ∷ append_change ds c

-- `entry(old).or_default().push(c)`
abbrev pub pushed : Option ChangeGroup → CodeChange → ChangeGroup
pushed none c = record { first = c; rest = [] }
pushed (some g) c = record g { rest = append_change g.rest c }

-- The two tests that skip a change.
unfoldable pub is_relevant : List Text → CodeChange → Bool
is_relevant kartverket c =
    not (text_eq c.old_code c.new_code && text_eq c.old_name c.new_name)
    && not (has_number c.old_code kartverket)

unfoldable pub group_changes :
    List Text → List (Text × ChangeGroup) → List CodeChange → List (Text × ChangeGroup)
group_changes kartverket groups [] = groups
group_changes kartverket groups (c ∷ cs) =
    let added =
      Map.insert text_cmp c.old_code (pushed (Map.get text_cmp c.old_code groups) c) groups in
    group_changes kartverket (if is_relevant kartverket c then added else groups) cs

-- `targets`, the new codes of a group with their names, the last name of a code.
unfoldable pub targets_from : List (Text × Text) → List CodeChange → List (Text × Text)
targets_from m [] = m
targets_from m (c ∷ cs) = targets_from (Map.insert text_cmp c.new_code c.new_name m) cs

unfoldable pub targets_of : ChangeGroup → List (Text × Text)
unfolding targets_from
targets_of g = targets_from [] (changes_of g)

abbrev pub keys {ℓ} : {V : Type ℓ} → List (Text × V) → List Text
keys [] = []
keys ((k, v) ∷ m) = k ∷ keys m

abbrev pub counted : Option ℕ → ℕ
counted none = 1
counted (some n) = n + 1

-- `*gone_groups_per_target.entry(t).or_default() += 1` for each target.
unfoldable pub count_all : List (Text × ℕ) → List Text → List (Text × ℕ)
count_all m [] = m
count_all m (t ∷ ts) = count_all (Map.insert text_cmp t (counted (Map.get text_cmp t m)) m) ts

unfoldable pub gone_groups_per_target :
    List (Text × ℕ) → List (Text × ChangeGroup) → List (Text × ℕ)
unfolding count_all targets_of
gone_groups_per_target m [] = m
gone_groups_per_target m ((old, g) ∷ gs) =
    gone_groups_per_target (count_all m (keys (targets_of g))) gs

-- The least `occurred_on` of a group.
abbrev pub earliest : Date → List CodeChange → Date
earliest d [] = d
earliest d (c ∷ cs) = earliest (min_of d c.occurred_on) cs

abbrev pub happened_on : ChangeGroup → Date
happened_on g = earliest g.first.occurred_on g.rest

unfoldable pub compare_groups : Text × ChangeGroup → Text × ChangeGroup → Ordering
compare_groups a b =
    then_by (compare (happened_on (a.1)) (happened_on (b.1))) (text_cmp (a.0) (b.0))

unfoldable pub ordered_groups : List (Text × ChangeGroup) → List (Text × ChangeGroup)
unfolding compare_groups
ordered_groups groups = sort_by compare_groups groups
