-- ===== src/Membership/Access/LastAdmin.antt =====
-- access.rs, `removal_leaves_no_admin`: checking the first day and the remaining ends is exhaustive.
use fau_portalen.Prelude.{
  ℕ, zero, suc, ◌+◌, ◌-◌, ◌≤◌, ◌<◌, ◌≡◌, ◌↔◌, refl, sym, ap, ◌∙◌, Bool, true, false, ◌&&◌, ◌||◌,
  not, List, map, Memᴰ, arith, ltb, max_of, any, Bool-cases, inl, inr, All, All-mem, any-mem,
  mem-any, any-false, any-append, any_congr, any-map-filter,
}
use mathlib.Core.Path.{ap₂, fun_ext}
use mathlib.Core.List.Memᴰ as MemD
use fau_portalen.Calendar.{Date}
use fau_portalen.Membership.Period.{Period, contains, has_ended_by, IsNonempty}
use fau_portalen.Membership.Access.{
  AssignmentView, GrantView, tenant_has_admin, admin_periods, leaves_gap, removal_leaves_no_admin,
}

-- Whether some period of the list contains the day.
abbrev pub covered_by : List Period → Date → Bool
covered_by ps d = any (λ p. contains p d) ps

abbrev ends : List Period → List Date
ends ps = map (λ (p : Period). p.ends_on_exclusive) ps

-- The FAU has an admin on a day exactly when one of its admin periods contains the day.
pub tenant_has_admin_lem :
    (rows : List AssignmentView) (gs : List GrantView) (d : Date)
    → tenant_has_admin rows gs d ≡ covered_by (admin_periods rows gs) d
unfolding tenant_has_admin admin_periods
tenant_has_admin_lem rows gs d =
    rw (any-append, any-map-filter, any-map-filter)
      (ap₂ ◌||◌ (any_congr _ _ rows (λ a. ground arith)) (any_congr _ _ gs (λ g. refl)))

-- A day of `ends` at which coverage is lost: after a covered day, and not after an uncovered one.
lost_at_end :
    (ps : List Period) (a k : ℕ)
    → covered_by ps a ≡ true
    → covered_by ps (a + k) ≡ false
    → (e : Date) × Memᴰ e (ends ps) × (a < e) × (e ≤ a + k) × (covered_by ps e ≡ false)
unfolding contains
lost_at_end ps a zero h g = let e : a + 0 ≡ a = omega arith in cc (ap (covered_by ps) e)
lost_at_end ps a (suc k) h g = elim (Bool-cases (covered_by ps (a + k))) [
  | inr f ↦ let (e, m, l, u, c) = lost_at_end ps a k h f in (e, m, l, omega arith, c)
  | inl t ↦
      let (p, m, c) = mem-any _ ps t in
      let c' : contains p (a + suc k) ≡ false = any-false _ g m in
      let e : p.ends_on_exclusive ≡ a + suc k = ground arith in
      (
        a + suc k,
        rw (sym e) (MemD.map (λ (q : Period). q.ends_on_exclusive) m),
        omega arith,
        omega arith,
        g,
      )
]

module _ (ps : List Period) (today : Date) (r : Period) (n : IsNonempty r) where
  -- A day of the removed period, from `today` on, that no remaining period contains.
  abbrev Gap : Type 0
  Gap = (d : Date) × (today ≤ d) × (contains r d ≡ true) × (covered_by ps d ≡ false)

  abbrev lost_between : Date → Bool
  lost_between e =
      ltb (max_of r.starts_on today) e && (ltb e r.ends_on_exclusive && not (covered_by ps e))

  gap_found : leaves_gap (covered_by ps) (ends ps) today r ≡ true → Gap
  unfolding leaves_gap contains has_ended_by
  gap_found h = elim (Bool-cases (covered_by ps (max_of r.starts_on today))) [
    | inr f ↦ (max_of r.starts_on today, ground arith, ground arith, f)
    | inl t ↦
        let any_end : any lost_between (ends ps) ≡ true = ground (arith, t) in
        let (e, m, l) = mem-any lost_between (ends ps) any_end in
        (e, ground arith, ground arith, ground arith)
  ]

  gap_seen : Gap → leaves_gap (covered_by ps) (ends ps) today r ≡ true
  unfolding leaves_gap contains has_ended_by
  gap_seen (d, late, inside, free) =
      let first : Date = max_of r.starts_on today in
      elim (Bool-cases (covered_by ps first)) [
        | inr f ↦ ground (arith, f)
        | inl t ↦
            let s : first + (d - first) ≡ d = ground arith in
            let (e, m, l, u, c) = lost_at_end ps first (d - first) t (rw s free) in
            let found : any lost_between (ends ps) ≡ true = any-mem lost_between m (ground arith) in
            ground (arith, found)
      ]

-- The safeguard answers true exactly when there is a day, from `today` on, on which the removed rows
-- would have given the FAU an admin and the remaining rows give it none. The removed rows' periods
-- are nonempty, as `Period::new` makes them.
pub removal_leaves_no_admin_iff :
    (rows : List AssignmentView) (grants : List GrantView) (removed_rows : List AssignmentView)
    (removed_grants : List GrantView) (today : Date)
    → All IsNonempty (admin_periods removed_rows removed_grants)
    → (removal_leaves_no_admin rows grants removed_rows removed_grants today ≡ true) ↔ (
        (d : Date) × (today ≤ d)
        × (tenant_has_admin removed_rows removed_grants d ≡ true)
        × (tenant_has_admin rows grants d ≡ false))
removal_leaves_no_admin_iff rows grants removed_rows removed_grants today n = (to, from)
  where
    ps : List Period
    ps = admin_periods rows grants

    rs : List Period
    rs = admin_periods removed_rows removed_grants

    same :
        removal_leaves_no_admin rows grants removed_rows removed_grants today
        ≡ any (leaves_gap (covered_by ps) (ends ps) today) rs
    same = unfold removal_leaves_no_admin in rw (← fun_ext (tenant_has_admin_lem rows grants))

    to :
        removal_leaves_no_admin rows grants removed_rows removed_grants today ≡ true
        → (d : Date) × (today ≤ d)
          × (tenant_has_admin removed_rows removed_grants d ≡ true)
          × (tenant_has_admin rows grants d ≡ false)
    to h =
        let (r, m, g) = mem-any (leaves_gap (covered_by ps) (ends ps) today) rs (sym same ∙ h) in
        let (d, late, inside, free) = gap_found ps today r (All-mem IsNonempty rs n m) g in
        (
          d,
          late,
          tenant_has_admin_lem removed_rows removed_grants d ∙ any-mem (λ p. contains p d) m inside,
          tenant_has_admin_lem rows grants d ∙ free,
        )

    from :
        ((d : Date) × (today ≤ d)
          × (tenant_has_admin removed_rows removed_grants d ≡ true)
          × (tenant_has_admin rows grants d ≡ false))
        → removal_leaves_no_admin rows grants removed_rows removed_grants today ≡ true
    from (d, late, had, free) =
        let (r, m, inside) =
          mem-any (λ p. contains p d) rs
            (sym (tenant_has_admin_lem removed_rows removed_grants d) ∙ had) in
        same
        ∙ any-mem (leaves_gap (covered_by ps) (ends ps) today) m (
            gap_seen ps today r (All-mem IsNonempty rs n m)
              (d, late, inside, sym (tenant_has_admin_lem rows grants d) ∙ free))
