-- ===== src/Register/Sync/Municipalities/Renumber.antt =====
-- municipalities.rs: the loop over the groups, which renumbers a municipality or blocks its codes.
use fau_portalen.Prelude.{
  compare, ℕ, Option, none, some, Bool, ◌&&◌, ◌||◌, not, List, [], ◌∷◌, ◌++◌, ltb, all, ok, err,
  Result, length, if◌then◌else◌, ◌==◌,
}
use fau_portalen.Prelude.Map
use fau_portalen.Text.{Text, Unicode, text_eq, text_cmp, codes, join}
use fau_portalen.Register.Slug.{SlugError, municipality_slug}
use fau_portalen.Register.Source.{MunicipalityRecord}
use fau_portalen.Register.Sync.Types
use fau_portalen.Register.Sync.Municipalities.State.{
  RowId, has_number, Working, Planning, holder_of, is_manual,
}
use fau_portalen.Register.Sync.Municipalities.Groups.{ChangeGroup, targets_of, keys}

-- What the loop's body decides about a group: nothing to do, a renumber of a municipality, or a reason
-- to block the codes.
pub data Verdict : Type 0 where
  skip : Verdict
  renumber : RowId → Working → Text → Text → Text → Verdict  -- the holder, the new number, name and slug
  block : Text → Verdict

abbrev pub existing_holder : Option (Types.Ref RowId) → Option RowId
existing_holder (some (Types.Ref.existing id)) = some id
existing_holder (some (Types.Ref.new n)) = none
existing_holder none = none

-- `gone_groups_per_target[to] == 1`; on a missing key the index panics.
abbrev pub if_once : Text → Option ℕ → Option (Option Text)
if_once to none = none
if_once to (some n) = some (if n == 1 then some to else none)

-- `one_to_one`: the only target, if no other group goes to it; the outer `none` is the panic.
unfoldable pub one_to_one : List (Text × ℕ) → List (Text × Text) → Option (Option Text)
one_to_one gone [] = some none
one_to_one gone ((to, name) ∷ []) = if_once to (Map.get text_cmp to gone)
one_to_one gone (_ ∷ _ ∷ _) = some none

-- Kartverket's name for a number: that of the last record with the number, else the name so far.
unfoldable pub listed_name : List MunicipalityRecord → Text → Text → Text
listed_name [] to name = name
listed_name (r ∷ rs) to name =
    listed_name rs to (if text_eq r.number to then r.norwegian_name else name)

abbrev pub slug_verdict : RowId → Working → Text → Text → Result SlugError Text → Verdict
slug_verdict id w to name (ok slug) = renumber id w to name slug
slug_verdict id w to name (err e) = block (codes "unsluggable")

module _ (u : Unicode) (records : List MunicipalityRecord) (gone : List (Text × ℕ)) where
  -- The arm for one target and a holder.
  unfoldable pub renumber_verdict : Planning → Text → RowId → Working → Text → Verdict
  renumber_verdict p old id w to =
      let name = listed_name records to w.name in
      if is_manual w.row.source
      then skip
      else if has_number to p.blocked_numbers || has_number old p.blocked_numbers
      then block (codes "unresolved_chain")
      else if Map.has_key text_cmp to p.by_number
      then block (codes "target_in_use")
      else slug_verdict id w to name (municipality_slug u to name)

  abbrev pub no_holder : Text → Option Text → Bool → Verdict
  no_holder old (some to) several = skip
  no_holder old none several = block (codes (if several then "split" else "merge"))

  -- The `match` on `one_to_one` and the holder; `none` is the panic of `working[&id]`.
  unfoldable pub holder_verdict :
      Planning → Text → Option RowId → Option Text → List (Text × Text) → Option Verdict
  holder_verdict p old none single targets = some (
      if Map.has_key text_cmp old gone
      then block (codes "unresolved_chain")
      else no_holder old single (ltb 1 (length targets)))
  holder_verdict p old (some id) (some to) targets = elim (Map.get compare id p.working) [
    | none ↦ none
    | some w ↦ some (renumber_verdict p old id w to)
  ]
  holder_verdict p old (some id) none targets =
      some (block (codes (if ltb 1 (length targets) then "split" else "merge")))

  unfoldable pub verdict : Planning → Text → List (Text × Text) → Option Verdict
  verdict p old targets =
      let holder = existing_holder (holder_of old p.by_number) in
      let resolved =
        not (Map.is_some holder) && all (λ t. Map.has_key text_cmp t p.by_number) (keys targets) in
      let decided : Option Verdict = elim (one_to_one gone targets) [
        | none ↦ none
        | some single ↦ holder_verdict p old holder single targets
      ] in
      if resolved then some skip else decided

-- `(name != w.name).then(|| name)`
abbrev pub changed_name : Text → Text → Option Text
changed_name name old = if text_eq name old then none else some name

unfoldable pub renumbered :
    Planning → Text → ChangeGroup → RowId → Working → Text → Text → Text → Planning
renumbered p old g id w to name slug = record p {
  ops =
      p.ops
      ++ (Types.MunicipalityOp.renumber (record {
        id = id;
        from = old;
        to = to;
        valid_from = g.first.occurred_on;
        name = changed_name name w.name;
        old_slug = w.slug;
        new_slug = slug;
      })
          ∷ []);
  by_number = Map.insert text_cmp to (Types.Ref.existing id) (Map.remove text_cmp old p.by_number);
  working = Map.insert compare id (record w { number = to; slug = slug; name = name }) p.working;
}

-- `join(targets.values())`
abbrev pub values {ℓ} : {V : Type ℓ} → List (Text × V) → List V
values [] = []
values ((k, v) ∷ m) = v ∷ values m

abbrev pub existing_ref : Option RowId → Option (Types.Ref RowId)
existing_ref none = none
existing_ref (some id) = some (Types.Ref.existing id)

unfoldable pub group_review :
    Text → ChangeGroup → Option RowId → Text → List (Text × Text) → Types.ReviewItem RowId
group_review old g holder reason targets =
    let chain = text_eq reason (codes "unresolved_chain") in
    record {
      kind = Types.ReviewKind.municipality_split_or_merge;
      school = none;
      other_school = none;
      municipality = existing_ref holder;
      details =
          (codes "reason", reason)
          ∷ (codes "old_code", old)
          ∷ (codes "old_name", g.first.old_name)
          ∷ (codes (if chain then "new_code" else "new_codes"), join (b',' ∷ []) (keys targets))
          ∷ (codes (if chain then "new_name" else "new_names"), join (b',' ∷ []) (values targets))
          ∷ [];
    }

unfoldable pub blocked : Planning → Text → ChangeGroup → Text → Planning
blocked p old g reason =
    let targets = targets_of g in
    record p {
      blocked_numbers = old ∷ (keys targets ++ p.blocked_numbers);
      reviews =
          p.reviews
          ++ (group_review old g (existing_holder (holder_of old p.by_number)) reason targets ∷ []);
    }

abbrev pub carried_out : Planning → Text → ChangeGroup → Verdict → Planning
carried_out p old g skip = p
carried_out p old g (renumber id w to name slug) = renumbered p old g id w to name slug
carried_out p old g (block reason) = blocked p old g reason

module _ (u : Unicode) (records : List MunicipalityRecord) (gone : List (Text × ℕ)) where
  -- One round of the loop over the groups.
  unfoldable pub plan_group : Planning → Text → ChangeGroup → Option Planning
  plan_group p old g = elim (verdict u records gone p old (targets_of g)) [
    | none ↦ none
    | some v ↦ some (carried_out p old g v)
  ]

  unfoldable pub plan_groups : Planning → List (Text × ChangeGroup) → Option Planning
  plan_groups p [] = some p
  plan_groups p ((old, g) ∷ gs) = elim (plan_group p old g) [
    | none ↦ none
    | some p' ↦ plan_groups p' gs
  ]
