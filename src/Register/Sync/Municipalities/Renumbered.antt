-- ===== src/Register/Sync/Municipalities/Renumbered.antt =====
-- municipalities.rs: the loop over the groups never panics, and stays sound.
use mathlib.Core.List.{append-nil}
use fau_portalen.Prelude.{
  compare, ℕ, ◌≡◌, refl, ap, ◌∙◌, ◌==◌, Memᴰ, Option, none, some, Bool, true, false, ◌&&◌, ◌||◌,
  not, List, [], ◌∷◌, ◌++◌, length, if◌then◌else◌, Bool-cases, Result, ok, err, inl, inr, ltb, all,
}
use fau_portalen.Prelude.Map
use fau_portalen.Text.{Text, Unicode, text_cmp, codes}
use fau_portalen.Register.Slug.{SlugError, municipality_slug}
use fau_portalen.Register.Source.{MunicipalityRecord}
use fau_portalen.Register.Sync.Types
use fau_portalen.Register.Sync.Municipalities.State.{
  RowId, has_number, Working, Planning, is_manual, holder_of,
}
use fau_portalen.Register.Sync.Municipalities.Groups.{ChangeGroup, targets_of, keys}
use fau_portalen.Register.Sync.Municipalities.Renumber.{
  listed_name, Verdict, existing_holder, renumber_verdict, slug_verdict, no_holder, holder_verdict,
  one_to_one, if_once, verdict, renumbered, blocked, carried_out, plan_group, plan_groups,
}
use fau_portalen.Register.Sync.Municipalities.Counted.{IsKey, IsCounted}
use fau_portalen.Register.Sync.Municipalities.Sound.{
  IsSound, new_numbers, new_numbers-append, same_maps-IsSound, renumbered_maps-IsSound,
}

-- A renumber's holder is a working row.
abbrev IsHeld : Planning → Verdict → Type 0
IsHeld p v =
    (id : RowId) (w : Working) (to name slug : Text)
    → v ≡ Verdict.renumber id w to name slug
    → Map.get compare id p.working ≡ some w

skip-IsHeld : (p : Planning) → IsHeld p Verdict.skip
skip-IsHeld p id w to name slug e = absurd (cc)

block-IsHeld : (p : Planning) (reason : Text) → IsHeld p (Verdict.block reason)
block-IsHeld p reason id w to name slug e = absurd (cc)

-- Operations that create nothing add no numbers.
pub new_numbers-snoc :
    (ops : List (Types.MunicipalityOp RowId)) (op : Types.MunicipalityOp RowId)
    → new_numbers (op ∷ []) ≡ []
    → new_numbers (ops ++ (op ∷ [])) ≡ new_numbers ops
new_numbers-snoc ops op e = new_numbers-append ops (op ∷ []) ∙ (rw e (append-nil (new_numbers ops)))

new_numbers-renumber :
    (m : Types.Renumbering RowId) → new_numbers (Types.MunicipalityOp.renumber m ∷ []) ≡ []
unfolding new_numbers
new_numbers-renumber m = refl

if-IsHeld :
    (p : Planning) (b : Bool) (v w : Verdict)
    → IsHeld p v
    → IsHeld p w
    → IsHeld p (if b then v else w)
if-IsHeld p true v w h k = h
if-IsHeld p false v w h k = k

slug_verdict-IsHeld :
    (p : Planning) (id : RowId) (w : Working) (to name : Text) (r : Result SlugError Text)
    → Map.get compare id p.working ≡ some w
    → IsHeld p (slug_verdict id w to name r)
slug_verdict-IsHeld p id w to name (ok slug) h i v t m l e =
    let a : i ≡ id = cc in let b : v ≡ w = cc in rw (a, b) h
slug_verdict-IsHeld p id w to name (err x) h i v t m l e = absurd (cc)

existing_holder-some :
    (o : Option (Types.Ref RowId)) (id : RowId)
    → existing_holder o ≡ some id
    → o ≡ some (Types.Ref.existing id)
existing_holder-some none id h = absurd (cc)
existing_holder-some (some (Types.Ref.existing i)) id h = let e : i ≡ id = cc in rw e refl
existing_holder-some (some (Types.Ref.new k)) id h = absurd (cc)

module _ (u : Unicode) (records : List MunicipalityRecord) (gone : List (Text × ℕ)) where
  renumber_verdict-IsHeld :
      (p : Planning) (old : Text) (id : RowId) (w : Working) (to : Text)
      → Map.get compare id p.working ≡ some w
      → IsHeld p (renumber_verdict u records gone p old id w to)
  unfolding renumber_verdict
  renumber_verdict-IsHeld p old id w to h =
      let name = listed_name records to w.name in
      if-IsHeld p (is_manual w.row.source) _ _ (skip-IsHeld p) (
        if-IsHeld p (has_number to p.blocked_numbers || has_number old p.blocked_numbers) _ _
          (block-IsHeld p (codes "unresolved_chain"))
          (if-IsHeld p (Map.has_key text_cmp to p.by_number) _ _
            (block-IsHeld p (codes "target_in_use"))
            (slug_verdict-IsHeld p id w to name (municipality_slug u to name) h)))

  no_holder-IsHeld :
      (p : Planning) (old : Text) (single : Option Text) (several : Bool)
      → IsHeld p (no_holder u records gone old single several)
  no_holder-IsHeld p old none several = block-IsHeld p _
  no_holder-IsHeld p old (some to) several = skip-IsHeld p

  holder_verdict-IsHeld :
      (p : Planning) (old : Text) (holder : Option RowId) (single : Option Text)
      (targets : List (Text × Text))
      → ((id : RowId) → holder ≡ some id → (w : Working) × (Map.get compare id p.working ≡ some w))
      → (v : Verdict) × (holder_verdict u records gone p old holder single targets ≡ some v)
        × IsHeld p v
  unfolding holder_verdict
  holder_verdict-IsHeld p old none single targets h = (
    _,
    refl,
    if-IsHeld p (Map.has_key text_cmp old gone) _ _ (block-IsHeld p _)
        (no_holder-IsHeld p old single (ltb 1 (length targets))),
  )
  holder_verdict-IsHeld p old (some id) (some to) targets h =
      let (w, e) = h id refl in
      (
        renumber_verdict u records gone p old id w to,
        rw (e, holder_verdict) refl,
        renumber_verdict-IsHeld p old id w to e,
      )
  holder_verdict-IsHeld p old (some id) none targets h = (_, refl, block-IsHeld p _)

  -- Where the only target is counted, the index does not panic.
  one_to_one-some :
      (targets : List (Text × Text))
      → ((t : Text) → Memᴰ t (keys targets) → IsKey gone t)
      → (single : Option Text) × (one_to_one gone targets ≡ some single)
  unfolding one_to_one
  one_to_one-some [] h = (none, refl)
  one_to_one-some ((to, name) ∷ []) h =
      let (n, e) = h to (Memᴰ.head refl) in (if n == 1 then some to else none, ap (if_once to) e)
  one_to_one-some (a ∷ b ∷ targets) h = (none, refl)

  verdict_at :
      (p : Planning) (old : Text) (targets : List (Text × Text)) (single : Option Text)
      (v : Verdict)
      → one_to_one gone targets ≡ some single
      → holder_verdict u records gone p old
          (existing_holder (holder_of old p.by_number))
          single
          targets
        ≡ some v
      → verdict u records gone p old targets
        ≡ some (
            if not (Map.is_some (existing_holder (holder_of old p.by_number)))
              && all (λ t. Map.has_key text_cmp t p.by_number) (keys targets)
            then Verdict.skip
            else v)
  unfolding verdict
  verdict_at p old targets single v e f =
      elim (Bool-cases (
        not (Map.is_some (existing_holder (holder_of old p.by_number)))
        && all (λ t. Map.has_key text_cmp t p.by_number) (keys targets))) [
          | inl t ↦ rw t refl
          | inr t ↦ rw (t, e) f
        ]

  -- A verdict is reached, and a renumber's holder is a working row.
  verdict-IsHeld :
      (rows : List (Types.MunicipalitySnapshot RowId)) (p : Planning) (old : Text)
      (targets : List (Text × Text))
      → IsSound rows p
      → ((t : Text) → Memᴰ t (keys targets) → IsKey gone t)
      → (v : Verdict) × (verdict u records gone p old targets ≡ some v) × IsHeld p v
  unfolding holder_of
  verdict-IsHeld rows p old targets s counted =
      let holder = existing_holder (holder_of old p.by_number) in
      let (single, o) = one_to_one-some targets counted in
      let (v, e, h) =
        holder_verdict-IsHeld p old holder single targets
          (λ id q. s.held old id (existing_holder-some (holder_of old p.by_number) id q)) in
      (_, verdict_at p old targets single v o e, if-IsHeld p _ _ _ (skip-IsHeld p) h)

  carried_out-IsSound :
      (rows : List (Types.MunicipalitySnapshot RowId)) (p : Planning) (old : Text) (g : ChangeGroup)
      (v : Verdict)
      → IsSound rows p
      → IsHeld p v
      → IsSound rows (carried_out p old g v)
  unfolding renumbered blocked
  carried_out-IsSound rows p old g Verdict.skip s h = s
  carried_out-IsSound rows p old g (Verdict.renumber id w to name slug) s h =
      renumbered_maps-IsSound rows p s old to id w
        (record w { number = to; slug = slug; name = name }) _ (h id w to name slug refl) refl refl
        refl (new_numbers-snoc p.ops _ (new_numbers-renumber _))
  carried_out-IsSound rows p old g (Verdict.block reason) s h =
      same_maps-IsSound rows p s _ refl refl refl refl

  plan_group_at :
      (p : Planning) (old : Text) (g : ChangeGroup) (v : Verdict)
      → verdict u records gone p old (targets_of g) ≡ some v
      → plan_group u records gone p old g ≡ some (carried_out p old g v)
  unfolding plan_group
  plan_group_at p old g v e = rw (e, plan_group) refl

  plan_groups_next :
      (p q : Planning) (old : Text) (g : ChangeGroup) (gs : List (Text × ChangeGroup))
      → plan_group u records gone p old g ≡ some q
      → plan_groups u records gone p ((old, g) ∷ gs) ≡ plan_groups u records gone q gs
  unfolding plan_groups
  plan_groups_next p q old g gs e = rw (e, plan_groups) refl

  pub plan_groups-IsSound :
      (rows : List (Types.MunicipalitySnapshot RowId)) (p : Planning)
      (gs : List (Text × ChangeGroup))
      → IsSound rows p
      → ((old : Text) (g : ChangeGroup) → Memᴰ (old, g) gs → IsCounted gone g)
      → (q : Planning) × (plan_groups u records gone p gs ≡ some q) × IsSound rows q
  plan_groups-IsSound rows p [] s counted = (p, unfold plan_groups in refl, s)
  plan_groups-IsSound rows p ((old, g) ∷ gs) s counted =
      let (v, e, h) = verdict-IsHeld rows p old (targets_of g) s (counted old g (Memᴰ.head refl)) in
      let (q, f, t) =
        plan_groups-IsSound rows (carried_out p old g v) gs (carried_out-IsSound rows p old g v s h)
          (λ old' g' k. counted old' g' (Memᴰ.tail k)) in
      (q, plan_groups_next p _ old g gs (plan_group_at p old g v e) ∙ f, t)
