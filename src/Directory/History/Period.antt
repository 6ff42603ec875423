-- ===== src/Directory/History/Period.antt =====
-- history.rs, `active_period`: the unbroken run of days up to today, and the roles before it.
use mathlib.Core.List.Memᴰ as MemD
use fau_portalen.Prelude.{
  ℕ, suc, ◌≤◌, ◌≡◌, ◌⊎◌, refl, sym, ◌∙◌, none, some, Bool, true, false, List, [], ◌∷◌, map, Memᴰ,
  arith, ltb, filter, find, any, any-mem, mem-filter, mem-any, Option-cases, Bool-cases, inl, inr,
}
use fau_portalen.Calendar.{Date}
use fau_portalen.Directory.History.{
  HeldRole, DaySpan, held_on, sort_spans, merge_spans, span_of, span_holds, active_period,
}
use fau_portalen.Directory.History.Runs.{any-merge_spans, merge_spans-IsApart}

find-some :
    (p : DaySpan → Bool) (xs : List DaySpan) (x : DaySpan)
    → find p xs ≡ some x
    → Memᴰ x xs × (p x ≡ true)
find-some p [] x h = absurd (cc)
find-some p (y ∷ ys) x h = elim (Bool-cases (p y)) [
  | inl t ↦ let e : x ≡ y = ground arith in (Memᴰ.head e, rw e t)
  | inr t ↦ let (m, u) = find-some p ys x (ground arith) in (Memᴰ.tail m, u)
]

find-none : (p : DaySpan → Bool) (xs : List DaySpan) → find p xs ≡ none → any p xs ≡ false
find-none p [] h = refl
find-none p (y ∷ ys) h = let ih = find-none p ys in ground arith

any-span_of :
    (day : ℕ) (held : List HeldRole)
    → any (span_holds day) (map span_of held) ≡ any (held_on day) held
any-span_of day [] = refl
any-span_of day (r ∷ rs) = rw (any-span_of day rs) refl

module _ (held : List HeldRole) (today : Date) where
  active_period-found :
      any (held_on today) held ≡ true
      → (x : DaySpan) × Memᴰ x (merge_spans (sort_spans (map span_of held)))
        × (span_holds today x ≡ true)
        × (active_period held today ≡ record {
          since = x.from;
          earlier = filter (λ (r : HeldRole). ltb r.until x.from) held;
        })
  unfolding active_period
  active_period-found t =
      elim (Option-cases (find (span_holds today) (merge_spans (sort_spans (map span_of held))))) [
        | inl e ↦
            let n = find-none (span_holds today) (merge_spans (sort_spans (map span_of held))) e in
            absurd (cc (n, any-merge_spans today (map span_of held), any-span_of today held, t))
        | inr (x, e) ↦
            let (m, u) =
              find-some (span_holds today) (merge_spans (sort_spans (map span_of held))) x e in
            (x, m, u, rw (e, active_period) refl)
      ]

  -- Who holds a role today has an active period that begins no later than today; on each day from
  -- then to today some role is held, and on the day before it begins none is; and every role that
  -- begins before the period is among the earlier ones.
  pub active_period-held :
      any (held_on today) held ≡ true
      → ((active_period held today).since ≤ today)
        × ((day : Date)
            → (active_period held today).since ≤ day
            → day ≤ today
            → any (held_on day) held ≡ true)
        × ((day : Date)
            → suc day ≡ (active_period held today).since
            → any (held_on day) held ≡ false)
        × ((r : HeldRole)
            → Memᴰ r held
            → ((active_period held today).since ≤ r.from)
              ⊎ Memᴰ r (active_period held today).earlier)
  active_period-held t =
      let (x, m, u, q) = active_period-found t in
      let apart = λ (r : HeldRole) (k : Memᴰ r held).
        merge_spans-IsApart (map span_of held) x (span_of r) m (MemD.map span_of k) in
      rw q (
        ground arith,
        λ day l h. covered x m day (ground arith),
        λ day e. elim (Bool-cases (any (held_on day) held)) [
          | inl f ↦
              let (r, k, g) = mem-any (held_on day) held f in
              absurd (elim (apart r k) [ inl a ↦ ground arith | inr a ↦ ground arith ])
          | inr f ↦ f
        ],
        λ r k. elim (apart r k) [
          | inl a ↦ inl a
          | inr a ↦ inr (mem-filter (λ (o : HeldRole). ltb o.until x.from) k (ground arith))
        ],
      )
    where
      covered :
          (x : DaySpan)
          → Memᴰ x (merge_spans (sort_spans (map span_of held)))
          → (day : ℕ) → span_holds day x ≡ true
          → any (held_on day) held ≡ true
      covered x m day h =
          sym (any-merge_spans day (map span_of held) ∙ any-span_of day held)
          ∙ any-mem (span_holds day) m h
