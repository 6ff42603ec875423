-- ===== src/Register/Sync/Schools/Placed.antt =====
-- schools.rs: what placing keeps of the closings, and which candidates it places.
use fau_portalen.Prelude.{
  ℕ, ◌+◌, ◌-◌, ◌<◌, ◌≤◌, ◌≡◌, refl, ap, ◌∙◌, Option, none, some, true, List, [], ◌∷◌, map, any,
  if◌then◌else◌, arith, ◌==◌, length, Bool-cases, ◌⊎◌, inl, inr, compare, either_way,
}
use fau_portalen.Prelude.Map
use fau_portalen.Text.{compare-IsKeyed}
use fau_portalen.Register.Sync.Types
use fau_portalen.Register.Sync.Similarity.{Floats}
use fau_portalen.Register.Sync.Municipalities.State.{RowId}
use fau_portalen.Register.Sync.Schools.Data.{
  Host, School, Closing, FauClosing, Candidate, Placement, listed,
}
use fau_portalen.Register.Sync.Schools.Place.{
  Predecessor, closing, fau, Match, Placing, claim, change_at, place_match, place_matches,
  place_submissions, place_all, submission_placed, submitted_match, is_placed,
}
use fau_portalen.Register.Sync.Schools.Sorted.{school_of_closing}

-- A change that keeps what is read of an element keeps what is read of all.
map-change_at :
    (n i : ℕ) (cs : List Closing)
    → map school_of_closing (change_at n (claim i) cs) ≡ map school_of_closing cs
unfolding change_at
map-change_at n i [] = refl
map-change_at n i (c ∷ cs) = elim (Bool-cases (n == 0)) [
  | inl e ↦ rw e refl
  | inr e ↦ rw e (ap (λ l. school_of_closing c ∷ l) (map-change_at (n - 1) i cs))
]

module _ (floats : Floats) where
  pub place_match-closings :
      (p : Placing) (m : Match) (q : Predecessor)
      → map school_of_closing (place_match floats p m q).closings ≡ map school_of_closing p.closings
  unfolding place_match
  place_match-closings p m (fau k s) = refl
  place_match-closings p m (closing j s) = elim (Bool-cases (any (λ i. i == j) p.claimed)) [
    | inl e ↦ rw e refl
    | inr e ↦ rw e (map-change_at j m.index p.closings)
  ]

  place_matches-closings :
      (p : Placing) (ms : List Match)
      → map school_of_closing (place_matches floats p ms).closings
        ≡ map school_of_closing p.closings
  unfolding place_matches
  place_matches-closings p [] = refl
  place_matches-closings p (m ∷ ms) =
      place_matches-closings
        (if is_placed m.index p.placement then p else place_match floats p m m.predecessor) ms
      ∙ either_way
          (λ (q : Placing). map school_of_closing q.closings ≡ map school_of_closing p.closings)
          (is_placed m.index p.placement) (λ e. refl) (λ e. place_match-closings p m m.predecessor)

pub submission_placed-closings :
    (floats : Floats) (p : Placing) (i : ℕ) (cand : Candidate) (o : Option (School × ℕ))
    → (submission_placed floats p i cand o).closings ≡ p.closings
submission_placed-closings floats p i cand none = refl
submission_placed-closings floats p i cand (some (s, score)) = refl

pub submission_placed-placed :
    (floats : Floats) (p : Placing) (i : ℕ) (cand : Candidate) (o : Option (School × ℕ))
    → (r : Placement) × ((submission_placed floats p i cand o).placement
        ≡ Map.insert compare i r p.placement)
submission_placed-placed floats p i cand none = (listed, refl)
submission_placed-placed floats p i cand (some (s, score)) = (_, refl)

abbrev pub IsPlacedAt : ℕ → Placing → Type 0
IsPlacedAt k p = (r : Placement) × (Map.get compare k p.placement ≡ some r)

pub placed_of : {A : Type 0} (o : Option A) → Map.is_some o ≡ true → (a : A) × (o ≡ some a)
placed_of none h = absurd (cc)
placed_of (some a) h = (a, refl)

module _ (host : Host) (snapshot : Types.RegisterSnapshot RowId) where
  place_submissions-closings :
      (p : Placing) (i : ℕ) (cands : List Candidate)
      → (place_submissions host snapshot p i cands).closings ≡ p.closings
  unfolding place_submissions
  place_submissions-closings p i [] = refl
  place_submissions-closings p i (cand ∷ cands) =
      place_submissions-closings
        (if is_placed i p.placement
          then p
          else submission_placed host.floats p i cand (submitted_match host snapshot cand))
        (i + 1) cands
      ∙ either_way (λ (q : Placing). q.closings ≡ p.closings) (is_placed i p.placement) (λ e. refl)
          (λ e.
            submission_placed-closings host.floats p i cand (submitted_match host snapshot cand))

  -- A placement that was there stays, and an index that had none gets one.
  step-placed :
      (p : Placing) (i k : ℕ) (cand : Candidate)
      → (k ≡ i) ⊎ IsPlacedAt k p
      → IsPlacedAt k (
          if is_placed i p.placement
          then p
          else submission_placed host.floats p i cand (submitted_match host snapshot cand))
  step-placed p i k cand h =
      either_way (IsPlacedAt k) (is_placed i p.placement)
        (λ e. elim h [ inr there ↦ there | inl q ↦ rw q (placed_of _ e) ])
        (λ e.
          let (r, f) =
            submission_placed-placed host.floats p i cand (submitted_match host snapshot cand) in
          elim h [
            | inl q ↦ (r, rw (f, q) (Map.get-insert_self compare compare-IsKeyed i r p.placement))
            | inr (r', x) ↦
                rw f (Map.get-insert_kept compare compare-IsKeyed k i r r' p.placement x)
          ])

  place_submissions-placed :
      (p : Placing) (i : ℕ) (cands : List Candidate) (k : ℕ)
      → ((i ≤ k) × (k < i + length cands)) ⊎ IsPlacedAt k p
      → IsPlacedAt k (place_submissions host snapshot p i cands)
  unfolding place_submissions
  place_submissions-placed p i [] k (inl (a, b)) = absurd (omega arith)
  place_submissions-placed p i [] k (inr h) = h
  place_submissions-placed p i (cand ∷ cands) k h =
      place_submissions-placed
        (if is_placed i p.placement
          then p
          else submission_placed host.floats p i cand (submitted_match host snapshot cand))
        (i + 1) cands k
        (elim h [
          | inr there ↦ inr (step-placed p i k cand (inr there))
          | inl (a, b) ↦ elim (Bool-cases (k == i)) [
            | inl q ↦ inr (step-placed p i k cand (inl (ground arith)))
            | inr q ↦ inl (ground arith, omega arith)
          ]
        ])

  -- Every candidate is placed.
  pub place_all-placed :
      (cands : List Candidate) (closings : List Closing) (faus : List FauClosing) (k : ℕ)
      → k < length cands
      → IsPlacedAt k (place_all host snapshot cands closings faus)
  unfolding place_all
  place_all-placed cands closings faus k h =
      place_submissions-placed _ 0 cands k (inl (omega arith, omega arith))

  -- Placing closes the schools that it was given, in their order.
  pub place_all-closings :
      (cands : List Candidate) (closings : List Closing) (faus : List FauClosing)
      → map school_of_closing (place_all host snapshot cands closings faus).closings
        ≡ map school_of_closing closings
  unfolding place_all
  place_all-closings cands closings faus =
      ap (map school_of_closing) (place_submissions-closings _ 0 cands)
      ∙ place_matches-closings host.floats _ _
