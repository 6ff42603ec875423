-- ===== src/Directory/History/Runs.antt =====
-- history.rs, the runs of days that `active_period` merges the held roles into.
use mathlib.Core.List.Memᴰ as MemD
use fau_portalen.Prelude.{
  ℕ, ◌≤◌, ◌<◌, ◌≡◌, ◌⊎◌, refl, ◌∙◌, Bool, true, false, ◌||◌, List, [], ◌∷◌, Memᴰ, arith, leb, any,
  max_of, Bool-cases, inl, inr,
}
use fau_portalen.Directory.History.{
  DaySpan, span_leb, insert_span, sort_spans, merge_from, merge_spans, span_holds,
}

-- The spans start no earlier than a day, and each no earlier than the one before it.
abbrev Ascending : ℕ → List DaySpan → Type 0
Ascending day [] = Unit
Ascending day (s ∷ ss) = (day ≤ s.from) × Ascending s.from ss

insert_span-Ascending :
    (day : ℕ) (s : DaySpan) (ts : List DaySpan)
    → day ≤ s.from
    → Ascending day ts
    → Ascending day (insert_span s ts)
unfolding insert_span
insert_span-Ascending day s [] h k = (h, tt)
insert_span-Ascending day s (t ∷ ts) h (k, k') = elim (Bool-cases (span_leb s t)) [
  | inl e ↦ let le : s.from ≤ t.from = ground arith in rw e (h, (le, k'))
  | inr e ↦
      let le : t.from ≤ s.from = ground arith in rw e (k, insert_span-Ascending t.from s ts le k')
]

sort_spans-Ascending : (ss : List DaySpan) → Ascending 0 (sort_spans ss)
unfolding sort_spans
sort_spans-Ascending [] = tt
sort_spans-Ascending (s ∷ ss) =
    insert_span-Ascending 0 s (sort_spans ss) (omega arith) (sort_spans-Ascending ss)

any-insert_span :
    (p : DaySpan → Bool) (s : DaySpan) (ts : List DaySpan)
    → any p (insert_span s ts) ≡ (p s || any p ts)
unfolding insert_span
any-insert_span p s [] = refl
any-insert_span p s (t ∷ ts) = let ih = any-insert_span p s ts in ground (arith, ih)

any-sort_spans : (p : DaySpan → Bool) (ss : List DaySpan) → any p (sort_spans ss) ≡ any p ss
unfolding sort_spans
any-sort_spans p [] = refl
any-sort_spans p (s ∷ ss) = any-insert_span p s (sort_spans ss) ∙ rw (any-sort_spans p ss) refl

Ascending-weaken : (a b : ℕ) (ss : List DaySpan) → a ≤ b → Ascending b ss → Ascending a ss
Ascending-weaken a b [] h k = tt
Ascending-weaken a b (s ∷ ss) h (k, k') = (ground arith, k')

-- The run with the end that a span gives it.
abbrev lengthened : DaySpan → DaySpan → DaySpan
lengthened run s = record run { until = max_of run.until s.until }

merge_from_last : (run : DaySpan) → merge_from run [] ≡ run ∷ []
unfolding merge_from
merge_from_last run = refl

merge_from_joined :
    (run s : DaySpan) (ss : List DaySpan)
    → leb s.from run.until ≡ true
    → merge_from run (s ∷ ss) ≡ merge_from (lengthened run s) ss
unfolding merge_from
merge_from_joined run s ss e = rw e refl

merge_from_apart :
    (run s : DaySpan) (ss : List DaySpan)
    → leb s.from run.until ≡ false
    → merge_from run (s ∷ ss) ≡ run ∷ merge_from s ss
unfolding merge_from
merge_from_apart run s ss e = rw e refl

span_holds-lengthened :
    (day : ℕ) (run s : DaySpan)
    → run.from ≤ s.from
    → leb s.from run.until ≡ true
    → span_holds day (lengthened run s) ≡ (span_holds day run || span_holds day s)
span_holds-lengthened day run s h e = ground arith

-- A day lies in a merged run exactly when it lies in one of the spans.
any-merge_from :
    (day : ℕ) (run : DaySpan) (ss : List DaySpan)
    → Ascending run.from ss
    → any (span_holds day) (merge_from run ss) ≡ any (span_holds day) (run ∷ ss)
any-merge_from day run [] h = unfold merge_from in refl
any-merge_from day run (s ∷ ss) (h, h') = elim (Bool-cases (leb s.from run.until)) [
  | inl e ↦
      let ih =
        any-merge_from day (lengthened run s) ss (Ascending-weaken run.from s.from ss h h') in
      rw (merge_from_joined run s ss e) (ih ∙ ground (arith, span_holds-lengthened day run s h e))
  | inr e ↦ let ih = any-merge_from day s ss h' in rw (merge_from_apart run s ss e) (rw ih refl)
]

merge_from-from_le :
    (run : DaySpan) (ss : List DaySpan) (x : DaySpan)
    → Ascending run.from ss
    → Memᴰ x (merge_from run ss)
    → run.from ≤ x.from
merge_from-from_le run [] x h m = elim (MemD.cases_cons (rw (merge_from_last run) at m)) [
  | inl e ↦ rw e (omega arith)
  | inr m' ↦ absurd (MemD.not-nil m')
]
merge_from-from_le run (s ∷ ss) x (h, h') m = elim (Bool-cases (leb s.from run.until)) [
  | inl e ↦
      merge_from-from_le (lengthened run s) ss x (Ascending-weaken run.from s.from ss h h')
        (rw (merge_from_joined run s ss e) at m)
  | inr e ↦ elim (MemD.cases_cons (rw (merge_from_apart run s ss e) at m)) [
    | inl q ↦ rw q (omega arith)
    | inr m' ↦ let ih = merge_from-from_le s ss x h' m' in omega arith
  ]
]

-- A span begins no earlier than a merged run, or ends before it begins, not even touching it.
abbrev pub IsApart : DaySpan → DaySpan → Type 0
IsApart x s = (x.from ≤ s.from) ⊎ (s.until < x.from)

Ascending-mem :
    (day : ℕ) (ss : List DaySpan) (s : DaySpan) → Ascending day ss → Memᴰ s ss → day ≤ s.from
Ascending-mem day [] s h m = absurd (MemD.not-nil m)
Ascending-mem day (t ∷ ts) s (h, h') m = elim (MemD.cases_cons m) [
  | inl e ↦ rw e h
  | inr m' ↦ let ih = Ascending-mem t.from ts s h' m' in omega arith
]

merge_from-IsApart :
    (run : DaySpan) (ss : List DaySpan) (x s : DaySpan)
    → Ascending run.from ss
    → Memᴰ x (merge_from run ss)
    → Memᴰ s (run ∷ ss)
    → IsApart x s
merge_from-IsApart run [] x s h m k = elim (MemD.cases_cons (rw (merge_from_last run) at m)) [
  | inl e ↦ elim (MemD.cases_cons k) [
    | inl q ↦ inl (rw (e, q) (omega arith))
    | inr k' ↦ absurd (MemD.not-nil k')
  ]
  | inr m' ↦ absurd (MemD.not-nil m')
]
merge_from-IsApart run (t ∷ ts) x s (h, h') m k = elim (Bool-cases (leb t.from run.until)) [
  | inl e ↦
      let asc = Ascending-weaken run.from t.from ts h h' in
      let m' = rw (merge_from_joined run t ts e) at m in
      let first =
        merge_from-IsApart (lengthened run t) ts x (lengthened run t) asc m' (Memᴰ.head refl) in
      elim (MemD.cases_cons k) [
        | inl q ↦ rw q (elim first [ inl a ↦ inl a | inr a ↦ inr (ground arith) ])
        | inr k' ↦ elim (MemD.cases_cons k') [
          | inl q ↦ rw q (elim first [ inl a ↦ inl (omega arith) | inr a ↦ inr (ground arith) ])
          | inr k'' ↦ merge_from-IsApart (lengthened run t) ts x s asc m' (Memᴰ.tail k'')
        ]
      ]
  | inr e ↦ elim (MemD.cases_cons (rw (merge_from_apart run t ts e) at m)) [
    | inl q ↦ rw q (elim (MemD.cases_cons k) [
      | inl p ↦ inl (rw p (omega arith))
      | inr k' ↦ inl (Ascending-mem run.from (t ∷ ts) s (h, h') k')
    ])
    | inr m' ↦ elim (MemD.cases_cons k) [
      | inl p ↦ let le = merge_from-from_le t ts x h' m' in inr (rw p (ground arith))
      | inr k' ↦ merge_from-IsApart t ts x s h' m' k'
    ]
  ]
]

pub any-merge_spans :
    (day : ℕ) (ss : List DaySpan)
    → any (span_holds day) (merge_spans (sort_spans ss)) ≡ any (span_holds day) ss
any-merge_spans day ss =
    merged (sort_spans ss) (sort_spans-Ascending ss) ∙ any-sort_spans (span_holds day) ss
  where
    merged :
        (ts : List DaySpan)
        → Ascending 0 ts
        → any (span_holds day) (merge_spans ts) ≡ any (span_holds day) ts
    merged [] h = unfold merge_spans in refl
    merged (t ∷ ts) h = unfold merge_spans in any-merge_from day t ts h.1

insert_span-mem :
    (t : DaySpan) (ts : List DaySpan) (s : DaySpan) → Memᴰ s (t ∷ ts) → Memᴰ s (insert_span t ts)
unfolding insert_span
insert_span-mem t [] s m = m
insert_span-mem t (v ∷ ts) s m = elim (Bool-cases (span_leb t v)) [
  | inl e ↦ rw e m
  | inr e ↦ rw e (elim (MemD.cases_cons m) [
    | inl q ↦ Memᴰ.tail (insert_span-mem t ts s (Memᴰ.head q))
    | inr m' ↦ elim (MemD.cases_cons m') [
      | inl q ↦ Memᴰ.head q
      | inr m'' ↦ Memᴰ.tail (insert_span-mem t ts s (Memᴰ.tail m''))
    ]
  ])
]

sort_spans-mem : (ss : List DaySpan) (s : DaySpan) → Memᴰ s ss → Memᴰ s (sort_spans ss)
unfolding sort_spans
sort_spans-mem [] s m = m
sort_spans-mem (t ∷ ts) s m =
    insert_span-mem t (sort_spans ts) s (elim (MemD.cases_cons m) [
      | inl q ↦ Memᴰ.head q
      | inr m' ↦ Memᴰ.tail (sort_spans-mem ts s m')
    ])

pub merge_spans-IsApart :
    (ss : List DaySpan) (x s : DaySpan)
    → Memᴰ x (merge_spans (sort_spans ss))
    → Memᴰ s ss
    → IsApart x s
merge_spans-IsApart ss x s m k =
    merged (sort_spans ss) (sort_spans-Ascending ss) m (sort_spans-mem ss s k)
  where
    merged :
        (ts : List DaySpan) → Ascending 0 ts → Memᴰ x (merge_spans ts) → Memᴰ s ts → IsApart x s
    merged [] h m k = absurd (MemD.not-nil k)
    merged (t ∷ ts) h m k = merge_from-IsApart t ts x s h.1 (unfold merge_spans in m) k
