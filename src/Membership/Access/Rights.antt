-- ===== src/Membership/Access/Rights.antt =====
-- access.rs, `evaluate_access`: what its answer says of the rows it was given.
use mathlib.Core.List.Memᴰ as MemD
use fau_portalen.Prelude.{
  All, All-of, ◌≤◌, ◌<◌, ◌≡◌, ◌↔◌, ◌⊎◌, refl, ap, ◌∙◌, Bool, true, false, ◌&&◌, ◌||◌, none, some,
  List, [], ◌∷◌, map, Memᴰ, arith, ltb, leb, any, filter, Bool-cases, Option-cases, inl, inr,
  any-mem, mem-any, filter-mem, any-map-filter,
}
use fau_portalen.Calendar.{Date}
use fau_portalen.Membership.Period.{contains}
use fau_portalen.Membership.Access.{
  Capability, nothing, guest, member, admin, rank, is_nothing, capability_of, AssignmentView,
  GrantView, Standing, assignment_valid_on, max_capability, min_date, starts_later, evaluate_access,
}

abbrev pub stands : Standing → Bool
stands s = s.tenant_active && (s.account_usable && s.membership_active)

max_capability_lem :
    (c : Capability) (cs : List Capability)
    → leb (rank c) (rank (max_capability cs))
      ≡ (is_nothing c || any (λ b. leb (rank c) (rank b)) cs)
unfolding max_capability
max_capability_lem nothing [] = refl
max_capability_lem guest [] = refl
max_capability_lem member [] = refl
max_capability_lem admin [] = refl
max_capability_lem c (b ∷ cs) = ground (arith, max_capability_lem c cs)

abbrev carries : Capability → Date → AssignmentView → Bool
carries c today a = assignment_valid_on a today && leb (rank c) (rank (capability_of a.capability))

capability_test :
    (s : Standing) (rows : List AssignmentView) (grants : List GrantView) (today : Date)
    (c : Capability)
    → leb (rank c) (rank (evaluate_access s rows grants today).capability)
      ≡ (is_nothing c || (stands s && any (carries c today) rows))
unfolding evaluate_access
capability_test s rows grants today c = elim (Bool-cases (stands s)) [
  | inl t ↦ rw t (max_capability_lem c _ ∙ ap (λ b. is_nothing c || b) (any-map-filter _ _ _ rows))
  | inr f ↦ rw f (max_capability_lem c [])
]

-- The assignment is not revoked, and the day lies in its period.
abbrev pub RunsOn : AssignmentView → Date → Type 0
RunsOn a day = (a.revoked ≡ false) × (a.period.starts_on ≤ day) × (day < a.period.ends_on_exclusive)

valid_iff : (a : AssignmentView) (day : Date) → (assignment_valid_on a day ≡ true) ↔ RunsOn a day
unfolding assignment_valid_on contains
valid_iff a day = ground arith

-- A person has at least the capability `c` exactly when `c` is nothing, or the person's standing is
-- good and some assignment of theirs that is not revoked, and in whose period today lies, carries at
-- least `c`.
pub evaluate_access-capability :
    (s : Standing) (rows : List AssignmentView) (grants : List GrantView) (today : Date)
    (c : Capability)
    → (rank c ≤ rank (evaluate_access s rows grants today).capability) ↔ (
        (c ≡ nothing)
        ⊎ ((stands s ≡ true)
            × ((a : AssignmentView) × Memᴰ a rows
                × RunsOn a today
                × (rank c ≤ rank (capability_of a.capability)))))
evaluate_access-capability s rows grants today c = (to, from)
  where
    to :
        rank c ≤ rank (evaluate_access s rows grants today).capability
        → (c ≡ nothing)
          ⊎ ((stands s ≡ true)
              × ((a : AssignmentView) × Memᴰ a rows
                  × RunsOn a today
                  × (rank c ≤ rank (capability_of a.capability))))
    to h = elim (Bool-cases (is_nothing c)) [
      | inl z ↦ inl (ground arith)
      | inr z ↦
          let t : (stands s && any (carries c today) rows) ≡ true =
            ground (arith, capability_test s rows grants today c) in
          let (a, m, v) = mem-any (carries c today) rows (ground (arith, t)) in
          inr (ground arith, (a, m, (valid_iff a today).0 (ground arith), ground arith))
    ]

    from :
        (c ≡ nothing)
          ⊎ ((stands s ≡ true)
              × ((a : AssignmentView) × Memᴰ a rows
                  × RunsOn a today
                  × (rank c ≤ rank (capability_of a.capability))))
        → rank c ≤ rank (evaluate_access s rows grants today).capability
    from (inl z) = rw z (omega arith)
    from (inr (t, (a, m, v, l))) =
        let found : any (carries c today) rows ≡ true =
          any-mem (carries c today) m (ground (arith, (valid_iff a today).1 v)) in
        ground (arith, capability_test s rows grants today c)

min_date-none : (ds : List Date) → min_date ds ≡ none → ds ≡ []
unfolding min_date
min_date-none [] h = refl
min_date-none (d ∷ ds) h = ground arith

-- `min_date` returns the least of the dates.
min_date-some :
    (ds : List Date) (m : Date)
    → min_date ds ≡ some m
    → Memᴰ m ds × ((d : Date) → Memᴰ d ds → m ≤ d)
unfolding min_date
min_date-some [] m h = absurd (cc)
min_date-some (d ∷ ds) m h = elim (Option-cases (min_date ds)) [
  | inl e ↦
      let only : m ≡ d = ground arith in
      (
        Memᴰ.head only,
        λ d' k. elim (MemD.cases_cons k) [
          | inl q ↦ omega arith
          | inr k' ↦ absurd (MemD.not-nil (rw (min_date-none ds e) at k'))
        ],
      )
  | inr (n, e) ↦
      let (k, least) = min_date-some ds n e in
      (
        elim (Bool-cases (ltb n d)) [
          | inl t ↦ let q : m ≡ n = ground arith in Memᴰ.tail (rw q k)
          | inr t ↦ let q : m ≡ d = ground arith in Memᴰ.head q
        ],
        λ d' k'. elim (MemD.cases_cons k') [
          | inl q ↦ ground arith
          | inr k'' ↦ ground (arith, least d' k'')
        ],
      )
]

-- When the answer names a next start, the person has no capability today, and the date is the
-- earliest of the starts after today of their assignments that are not revoked.
pub evaluate_access-next_start :
    (s : Standing) (rows : List AssignmentView) (grants : List GrantView) (today day : Date)
    → (evaluate_access s rows grants today).next_start ≡ some day
    → ((evaluate_access s rows grants today).capability ≡ nothing)
      × (stands s ≡ true)
      × ((a : AssignmentView) × Memᴰ a rows
          × (a.revoked ≡ false)
          × (a.period.starts_on ≡ day)
          × (today < day))
      × All (λ (a : AssignmentView). day ≤ a.period.starts_on) (filter (starts_later today) rows)
unfolding evaluate_access
evaluate_access-next_start s rows grants today day h = (ground arith, ground arith, first, least)
  where
    start : AssignmentView → Date
    start a = a.period.starts_on

    later : min_date (map start (filter (starts_later today) rows)) ≡ some day
    later = ground arith

    first :
        (a : AssignmentView) × Memᴰ a rows
        × (a.revoked ≡ false)
        × (a.period.starts_on ≡ day)
        × (today < day)
    first =
        let (a, m, e) =
          MemD.of_map start (filter (starts_later today) rows) (min_date-some _ day later).0 in
        let (k, t) = filter-mem (starts_later today) a rows m in
        (a, k, ground arith, e, ground arith)

    least :
        All (λ (a : AssignmentView). day ≤ a.period.starts_on) (filter (starts_later today) rows)
    least =
        All-of (λ (a : AssignmentView). day ≤ a.period.starts_on) (filter (starts_later today) rows)
          (λ a m. (min_date-some _ day later).1 (start a) (MemD.map start m))
