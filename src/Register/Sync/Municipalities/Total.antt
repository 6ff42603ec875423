-- ===== src/Register/Sync/Municipalities/Total.antt =====
-- municipalities.rs: the planner never panics, and what its answer refers to.
use fau_portalen.Prelude.{
  compare, ℕ, ◌+◌, ◌<◌, ◌≡◌, refl, sym, ap, ◌∙◌, some, ◌&&◌, not, List, [], ◌∷◌, Memᴰ, Bool-cases,
  inl, inr, sort_by,
}
use fau_portalen.Prelude.Map
use fau_portalen.Text.{Text, Unicode, text_cmp, text_cmp-IsKeyed, compare-IsKeyed}
use fau_portalen.Register.Source.{NsrUnit}
use fau_portalen.Register.Sync.Types
use fau_portalen.Register.Sync.Municipalities.State.{
  RowId, has_number, Working, Planning, MunicipalityPlan, is_active,
}
use fau_portalen.Register.Sync.Municipalities.Groups.{
  group_changes, gone_groups_per_target, ordered_groups,
}
use fau_portalen.Register.Sync.Municipalities.Renumber.{plan_groups}
use fau_portalen.Register.Sync.Municipalities.Records.{plan_records, compare_records, push_review}
use fau_portalen.Register.Sync.Municipalities.Plan.{
  start_row, start_from, nothing_planned, is_absent, absent_review, review_absent, numbers_of,
  svalbard_number, with_svalbard, add_svalbard, svalbard_needed, finished, planned,
  plan_municipalities,
}
use fau_portalen.Register.Sync.Municipalities.Sound.{
  IsSound, new_numbers, count_up, next_created-IsSound, IsActiveRow,
}
use fau_portalen.Register.Sync.Municipalities.Counted.{ordered_groups-IsCounted}
use fau_portalen.Register.Sync.Municipalities.Renumbered.{plan_groups-IsSound}
use fau_portalen.Register.Sync.Municipalities.Recorded.{plan_records-IsSound, push_review-IsSound}

start_row-IsSound :
    (rows : List (Types.MunicipalitySnapshot RowId)) (p : Planning)
    (row : Types.MunicipalitySnapshot RowId)
    → Memᴰ row rows
    → IsSound rows p
    → IsSound rows (start_row p row)
unfolding start_row
start_row-IsSound rows p row m s = elim (Bool-cases (is_active row.status)) [
  | inr e ↦ rw e s
  | inl e ↦ rw e (record {
    held = λ n i k.
        elim (Map.get-insert-some text_cmp text_cmp-IsKeyed n row.number _ _ p.by_number k) [
          | inl (x, y) ↦
              let z : i ≡ row.id = cc in
              let w : Working = record {
                row = row;
                number = row.number;
                name = row.name;
                slug = row.slug;
              } in
              (w, rw z (Map.get-insert_self compare compare-IsKeyed row.id w p.working))
          | inr before ↦
              let (v, y) = s.held n i before in
              Map.get-insert_kept compare compare-IsKeyed i row.id _ v p.working y
        ];
    minted = λ n k h.
        elim (Map.get-insert-some text_cmp text_cmp-IsKeyed n row.number _ _ p.by_number h) [
          | inl (x, y) ↦ absurd (cc)
          | inr before ↦ s.minted n k before
        ];
    known = λ i v h. elim (Map.get-insert-some compare compare-IsKeyed i row.id _ v p.working h) [
      | inl (x, y) ↦ (row, m, sym x, e)
      | inr before ↦ s.known i v before
    ];
    numbered = s.numbered;
  })
]

start_from-IsSound :
    (rows rest : List (Types.MunicipalitySnapshot RowId)) (p : Planning)
    → ((row : Types.MunicipalitySnapshot RowId) → Memᴰ row rest → Memᴰ row rows)
    → IsSound rows p
    → IsSound rows (start_from p rest)
unfolding start_from
start_from-IsSound rows [] p h s = s
start_from-IsSound rows (row ∷ rest) p h s =
    start_from-IsSound rows rest (start_row p row) (λ r m. h r (Memᴰ.tail m))
      (start_row-IsSound rows p row (h row (Memᴰ.head refl)) s)

nothing_planned-IsSound :
    (rows : List (Types.MunicipalitySnapshot RowId)) → IsSound rows nothing_planned
unfolding new_numbers count_up Map.get
nothing_planned-IsSound rows = record {
  held = λ n id h. absurd (cc);
  minted = λ n k h. absurd (cc);
  known = λ id w h. absurd (cc);
  numbered = refl;
}

review_absent-IsSound :
    (rows : List (Types.MunicipalitySnapshot RowId)) (kartverket : List Text) (p : Planning)
    (ws : List (RowId × Working))
    → IsSound rows p
    → IsSound rows (review_absent kartverket p ws)
unfolding review_absent
review_absent-IsSound rows kartverket p [] s = s
review_absent-IsSound rows kartverket p ((id, w) ∷ ws) s =
    elim (Bool-cases (is_absent kartverket p.blocked_numbers w)) [
      | inl e ↦ rw e (
          review_absent-IsSound rows kartverket (push_review p (absent_review w)) ws
            (push_review-IsSound rows p s (absent_review w)))
      | inr e ↦ rw e (review_absent-IsSound rows kartverket p ws s)
    ]

-- What a plan refers to: it creates municipalities `0..n`, and a number is held by an active row of the
-- snapshot or by one of the created.
pub record RefersTo (rows : List (Types.MunicipalitySnapshot RowId)) (plan : MunicipalityPlan)
    (n : ℕ) : Type 0 where
  pub numbered : new_numbers plan.ops ≡ count_up n
  pub held :
      (number : Text) (id : RowId)
      → Map.get text_cmp number plan.state.by_number ≡ some (Types.Ref.existing id)
      → IsActiveRow rows id
  pub minted :
      (number : Text) (k : ℕ)
      → Map.get text_cmp number plan.state.by_number ≡ some (Types.Ref.new k)
      → k < n

finished-RefersTo :
    (rows : List (Types.MunicipalitySnapshot RowId)) (p q : Planning)
    → IsSound rows q
    → q.ops ≡ p.ops
    → q.by_number ≡ p.by_number
    → RefersTo rows (finished p) q.next_new
unfolding finished
finished-RefersTo rows p q s a b = record {
  numbered = ap new_numbers (sym a) ∙ s.numbered;
  held = λ number id h. let (w, e) = s.held number id (rw b h) in s.known id w e;
  minted = λ number k h. s.minted number k (rw b h);
}

add_svalbard-RefersTo :
    (rows : List (Types.MunicipalitySnapshot RowId)) (units : List NsrUnit) (p : Planning)
    → IsSound rows p
    → (n : ℕ) × RefersTo rows (finished (add_svalbard units p)) n
unfolding add_svalbard with_svalbard
add_svalbard-RefersTo rows units p s =
    elim (Bool-cases (
      svalbard_needed units
      && (not (Map.has_key text_cmp svalbard_number p.by_number)
          && not (has_number svalbard_number p.blocked_numbers)))) [
            | inl e ↦
                let q = record (with_svalbard p) { next_new = p.next_new + 1 } in
                (
                  p.next_new + 1,
                  rw e (
                      finished-RefersTo rows (with_svalbard p) q
                        (next_created-IsSound rows p s svalbard_number _ q refl refl refl refl refl)
                        refl refl),
                )
            | inr e ↦ (p.next_new, rw e (finished-RefersTo rows p p s refl refl))
          ]

module _ (u : Unicode) (snapshot : Types.RegisterSnapshot RowId) (inputs : Types.SyncInputs) where
  planned_at :
      (p q : Planning)
      → plan_groups u inputs.municipalities
          (gone_groups_per_target []
            (group_changes (numbers_of inputs.municipalities) [] inputs.code_changes))
          (start_from nothing_planned snapshot.municipalities)
          (ordered_groups (group_changes (numbers_of inputs.municipalities) [] inputs.code_changes))
        ≡ some p
      → plan_records u inputs.kind p (sort_by compare_records inputs.municipalities) ≡ some q
      → planned u snapshot inputs ≡ some q
  unfolding planned
  planned_at p q e f = rw (e, planned) f

  plan_municipalities_at :
      (q : Planning)
      → planned u snapshot inputs ≡ some q
      → plan_municipalities u snapshot inputs
        ≡ some (
            finished (
              add_svalbard inputs.units
                (review_absent (numbers_of inputs.municipalities) q q.working)))
  unfolding plan_municipalities
  plan_municipalities_at q e = rw (e, plan_municipalities) refl

  planned-IsSound :
      (q : Planning) × (planned u snapshot inputs ≡ some q) × IsSound snapshot.municipalities q
  planned-IsSound =
      let rows = snapshot.municipalities in
      let groups = group_changes (numbers_of inputs.municipalities) [] inputs.code_changes in
      let gone = gone_groups_per_target [] groups in
      let (p, e, s) =
        plan_groups-IsSound u inputs.municipalities gone rows (start_from nothing_planned rows)
          (ordered_groups groups)
          (start_from-IsSound rows rows nothing_planned (λ r m. m) (nothing_planned-IsSound rows))
          (ordered_groups-IsCounted groups) in
      let (q, f, t) =
        plan_records-IsSound u inputs.kind rows p (sort_by compare_records inputs.municipalities)
          s in
      (q, planned_at p q e f, t)

  -- The planner always answers. Its plan creates municipalities that are numbered from 0 on, in the
  -- order of its operations, and every number is held, if at all, by an active municipality of the
  -- snapshot or by one that the plan creates.
  pub plan_municipalities-RefersTo :
      (plan : MunicipalityPlan) × (plan_municipalities u snapshot inputs ≡ some plan)
      × ((n : ℕ) × RefersTo snapshot.municipalities plan n)
  plan_municipalities-RefersTo =
      let (q, e, s) = planned-IsSound in
      let kartverket = numbers_of inputs.municipalities in
      let r = review_absent kartverket q q.working in
      (
        finished (add_svalbard inputs.units r),
        plan_municipalities_at q e,
        add_svalbard-RefersTo snapshot.municipalities inputs.units r
            (review_absent-IsSound snapshot.municipalities kartverket q q.working s),
      )
