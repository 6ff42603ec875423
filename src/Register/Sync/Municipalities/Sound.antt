-- ===== src/Register/Sync/Municipalities/Sound.antt =====
-- municipalities.rs: the invariant of the planner's loops.
use mathlib.Core.List.{append_assoc}
use fau_portalen.Prelude.{
  compare, ℕ, zero, suc, ◌+◌, ◌<◌, ◌≡◌, refl, sym, ap, ◌∙◌, some, true, List, [], ◌∷◌, ◌++◌, Memᴰ,
  arith, inl, inr,
}
use fau_portalen.Prelude.Map
use fau_portalen.Text.{Text, text_cmp, text_cmp-IsKeyed, compare-IsKeyed}
use fau_portalen.Register.Sync.Types
use fau_portalen.Register.Sync.Municipalities.State.{RowId, Working, Planning, is_active}

-- The numbers of the municipalities that operations create, in order.
abbrev pub created_number : Types.MunicipalityOp RowId → List ℕ
created_number (Types.MunicipalityOp.create m) = m.new ∷ []
created_number (Types.MunicipalityOp.renumber m) = []
created_number (Types.MunicipalityOp.rename m) = []
created_number (Types.MunicipalityOp.update_details m) = []

unfoldable pub new_numbers : List (Types.MunicipalityOp RowId) → List ℕ
new_numbers [] = []
new_numbers (op ∷ ops) = created_number op ++ new_numbers ops

-- `0..n`
unfoldable pub count_up : ℕ → List ℕ
count_up zero = []
count_up (suc n) = count_up n ++ (n ∷ [])

-- An active municipality of the snapshot has the id.
abbrev pub IsActiveRow : List (Types.MunicipalitySnapshot RowId) → RowId → Type 0
IsActiveRow rows id =
    (row : Types.MunicipalitySnapshot RowId) × Memᴰ row rows
    × (row.id ≡ id)
    × (is_active row.status ≡ true)

-- Numbers are held by working rows and by created municipalities, the working rows are active rows of
-- the snapshot, and created municipalities are numbered from 0 on.
pub record IsSound (rows : List (Types.MunicipalitySnapshot RowId)) (p : Planning) : Type 0 where
  pub held :
      (n : Text) (id : RowId)
      → Map.get text_cmp n p.by_number ≡ some (Types.Ref.existing id)
      → (w : Working) × (Map.get compare id p.working ≡ some w)
  pub minted :
      (n : Text) (k : ℕ) → Map.get text_cmp n p.by_number ≡ some (Types.Ref.new k) → k < p.next_new
  pub known :
      (id : RowId) (w : Working) → Map.get compare id p.working ≡ some w → IsActiveRow rows id
  pub numbered : new_numbers p.ops ≡ count_up p.next_new

pub new_numbers-append :
    (xs ys : List (Types.MunicipalityOp RowId))
    → new_numbers (xs ++ ys) ≡ new_numbers xs ++ new_numbers ys
unfolding new_numbers
new_numbers-append [] ys = refl
new_numbers-append (op ∷ xs) ys =
    ap (λ r. created_number op ++ r) (new_numbers-append xs ys)
    ∙ sym (append_assoc (created_number op) (new_numbers xs) (new_numbers ys))

created_last :
    (xs ys : List ℕ) (m : Types.NewMunicipality) {n : ℕ}
    → xs ≡ ys
    → m.new ≡ n
    → xs ++ new_numbers (Types.MunicipalityOp.create m ∷ []) ≡ ys ++ (n ∷ [])
unfolding new_numbers
created_last xs ys m e f = rw (e, f) refl

count_up_next : (n : ℕ) → count_up (n + 1) ≡ count_up n ++ (n ∷ [])
count_up_next n = let e : n + 1 ≡ suc n = omega arith in rw e (unfold count_up in refl)

-- Of a planning's maps, the parts of `IsSound` that speak of them.
module _ (rows : List (Types.MunicipalitySnapshot RowId)) (p : Planning) (s : IsSound rows p) where
  -- A round that adds operations which create nothing, and reviews, leaves the planning sound.
  pub same_maps-IsSound :
      (q : Planning)
      → q.by_number ≡ p.by_number
      → q.working ≡ p.working
      → q.next_new ≡ p.next_new
      → new_numbers q.ops ≡ new_numbers p.ops
      → IsSound rows q
  same_maps-IsSound q e f g h = record {
    held = λ n id k. let (w, x) = s.held n id (rw e at k) in (w, rw f x);
    minted = λ n k m. rw g (s.minted n k (rw e at m));
    known = λ id w m. s.known id w (rw f at m);
    numbered = h ∙ (s.numbered ∙ rw g refl);
  }

  -- A municipality that is created takes the next number.
  pub next_created-IsSound :
      (number : Text) (m : Types.NewMunicipality) (q : Planning)
      → m.new ≡ p.next_new
      → q.ops ≡ p.ops ++ (Types.MunicipalityOp.create m ∷ [])
      → q.by_number ≡ Map.insert text_cmp number (Types.Ref.new p.next_new) p.by_number
      → q.working ≡ p.working
      → q.next_new ≡ p.next_new + 1
      → IsSound rows q
  next_created-IsSound number m q a o b w x = record {
    held = λ n id k.
        elim (Map.get-insert-some text_cmp text_cmp-IsKeyed n number _ _ p.by_number (rw b at k)) [
          | inl (e, f) ↦ absurd (cc)
          | inr old ↦ let (v, y) = s.held n id old in (v, rw w y)
        ];
    minted = λ n k h.
        elim (Map.get-insert-some text_cmp text_cmp-IsKeyed n number _ _ p.by_number (rw b at h)) [
          | inl (e, f) ↦ let q' : k ≡ p.next_new = cc in rw x (omega arith)
          | inr old ↦ let l = s.minted n k old in rw x (omega arith)
        ];
    known = λ id v h. s.known id v (rw w at h);
    numbered =
        ap new_numbers o
        ∙ (new_numbers-append p.ops (Types.MunicipalityOp.create m ∷ [])
            ∙ (created_last (new_numbers p.ops) (count_up p.next_new) m s.numbered a
                ∙ rw x (sym (count_up_next p.next_new))));
  }

  -- A municipality that is renumbered keeps its row.
  pub renumbered_maps-IsSound :
      (old to : Text) (id : RowId) (w v : Working) (q : Planning)
      → Map.get compare id p.working ≡ some w
      → q.by_number
        ≡ Map.insert text_cmp to (Types.Ref.existing id) (Map.remove text_cmp old p.by_number)
      → q.working ≡ Map.insert compare id v p.working
      → q.next_new ≡ p.next_new
      → new_numbers q.ops ≡ new_numbers p.ops
      → IsSound rows q
  renumbered_maps-IsSound old to id w v q g b f x h = record {
    held = λ n i k.
        elim (Map.get-insert-some text_cmp text_cmp-IsKeyed n to _ _
          (Map.remove text_cmp old p.by_number) (rw b at k)) [
            | inl (e, y) ↦
                let z : i ≡ id = cc in
                (v, rw f (rw z (Map.get-insert_self compare compare-IsKeyed id v p.working)))
            | inr before ↦
                let (v', y) =
                  s.held n i
                    (Map.get-remove-some text_cmp text_cmp-IsKeyed n old _ p.by_number before) in
                let (v'', z) = Map.get-insert_kept compare compare-IsKeyed i id v v' p.working y in
                (v'', rw f z)
          ];
    minted = λ n k m.
        elim (Map.get-insert-some text_cmp text_cmp-IsKeyed n to _ _
          (Map.remove text_cmp old p.by_number) (rw b at m)) [
            | inl (e, y) ↦ absurd (cc)
            | inr before ↦ rw x (
                s.minted n k
                  (Map.get-remove-some text_cmp text_cmp-IsKeyed n old _ p.by_number before))
          ];
    known = λ i v' m.
        elim (Map.get-insert-some compare compare-IsKeyed i id v v' p.working (rw f at m)) [
          | inl (e, y) ↦ rw e (s.known id w g)
          | inr before ↦ s.known i v' before
        ];
    numbered = h ∙ (s.numbered ∙ rw x refl);
  }
