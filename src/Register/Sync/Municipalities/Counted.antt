-- ===== src/Register/Sync/Municipalities/Counted.antt =====
-- municipalities.rs: every target of a group is a key of `gone_groups_per_target`, which the loop
-- indexes.
use mathlib.Core.List.Memᴰ as MemD
use fau_portalen.Prelude.{ℕ, ◌≡◌, ap, some, List, [], ◌∷◌, Memᴰ, inl, inr, sort_by-mem}
use fau_portalen.Prelude.Map
use fau_portalen.Text.{Text, text_cmp, text_cmp-IsKeyed}
use fau_portalen.Register.Sync.Municipalities.Groups.{
  ChangeGroup, targets_of, keys, counted, count_all, gone_groups_per_target, compare_groups,
  ordered_groups,
}

-- The index at this key does not panic.
abbrev pub IsKey : List (Text × ℕ) → Text → Type 0
IsKey m t = (n : ℕ) × (Map.get text_cmp t m ≡ some n)

abbrev pub IsCounted : List (Text × ℕ) → ChangeGroup → Type 0
IsCounted gone g = (t : Text) → Memᴰ t (keys (targets_of g)) → IsKey gone t

-- Counting keeps the keys that there are.
count_all-IsKey :
    (m : List (Text × ℕ)) (ts : List Text) (t : Text) → IsKey m t → IsKey (count_all m ts) t
unfolding count_all
count_all-IsKey m [] t k = k
count_all-IsKey m (s ∷ ts) t (n, e) =
    let v = counted (Map.get text_cmp s m) in
    count_all-IsKey (Map.insert text_cmp s v m) ts t
      (Map.get-insert_kept text_cmp text_cmp-IsKeyed t s v n m e)

-- What is counted is a key.
count_all-mem :
    (m : List (Text × ℕ)) (ts : List Text) (t : Text) → Memᴰ t ts → IsKey (count_all m ts) t
unfolding count_all
count_all-mem m [] t k = absurd (MemD.not-nil k)
count_all-mem m (s ∷ ts) t k =
    let v = counted (Map.get text_cmp s m) in
    let m' = Map.insert text_cmp s v m in
    elim (MemD.cases_cons k) [
      | inl e ↦
          count_all-IsKey m' ts t (v, rw e (Map.get-insert_self text_cmp text_cmp-IsKeyed s v m))
      | inr k' ↦ count_all-mem m' ts t k'
    ]

gone-IsKey :
    (m : List (Text × ℕ)) (gs : List (Text × ChangeGroup)) (t : Text)
    → IsKey m t
    → IsKey (gone_groups_per_target m gs) t
unfolding gone_groups_per_target
gone-IsKey m [] t k = k
gone-IsKey m ((old, g) ∷ gs) t k =
    gone-IsKey (count_all m (keys (targets_of g))) gs t
      (count_all-IsKey m (keys (targets_of g)) t k)

gone-IsCounted :
    (m : List (Text × ℕ)) (gs : List (Text × ChangeGroup)) (old : Text) (g : ChangeGroup)
    → Memᴰ (old, g) gs
    → IsCounted (gone_groups_per_target m gs) g
unfolding gone_groups_per_target
gone-IsCounted m [] old g k = absurd (MemD.not-nil k)
gone-IsCounted m ((old', g') ∷ gs) old g k = elim (MemD.cases_cons k) [
  | inl e ↦
      let q : g ≡ g' = ap (λ (x : Text × ChangeGroup). x.1) e in
      λ t i.
        gone-IsKey (count_all m (keys (targets_of g'))) gs t
          (count_all-mem m (keys (targets_of g')) t (rw (← q) i))
  | inr k' ↦ gone-IsCounted (count_all m (keys (targets_of g'))) gs old g k'
]

-- The loop's groups, in their order, are counted.
pub ordered_groups-IsCounted :
    (groups : List (Text × ChangeGroup)) (old : Text) (g : ChangeGroup)
    → Memᴰ (old, g) (ordered_groups groups)
    → IsCounted (gone_groups_per_target [] groups) g
unfolding ordered_groups
ordered_groups-IsCounted groups old g k =
    gone-IsCounted [] groups old g (sort_by-mem compare_groups (old, g) groups k)
