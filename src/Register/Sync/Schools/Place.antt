-- ===== src/Register/Sync/Schools/Place.antt =====
-- schools.rs, `place_all`: how every candidate is created.
use fau_portalen.Prelude.{
  ℕ, ◌+◌, ◌-◌, Ordering, compare, then_by, sort_by, Option, none, some, Bool, true, false, ◌&&◌,
  ◌||◌, not, List, [], ◌∷◌, ◌++◌, any, filter, leb, ltb, max_of, if◌then◌else◌, ◌==◌,
}
use fau_portalen.Prelude.Map
use fau_portalen.Text.{Text, text_cmp, codes}
use fau_portalen.Register.Sync.Types
use fau_portalen.Register.Sync.Similarity.{
  similarity, submission_match_threshold, reregistration_threshold, Floats,
}
use fau_portalen.Register.Sync.Municipalities.State.{RowId}
use fau_portalen.Register.Sync.Schools.Data.{
  Host, School, Closing, FauClosing, Candidate, Placement, successor, held_reregistration,
  held_submission, listed,
}
use fau_portalen.Register.Sync.Schools.Book.{ref_eq, is_closed}

-- `PredKind`; the index stands with the school at that index.
pub data Predecessor : Type 0 where
  closing : ℕ → School → Predecessor
  fau : ℕ → School → Predecessor

-- A match; the candidate stands with its index.
pub record Match : Type 0 where
  pub index : ℕ
  pub candidate : Candidate
  pub predecessor : Predecessor
  pub score : ℕ

abbrev pub in_municipality : Candidate → RowId → Bool
in_municipality c id = ref_eq (Types.Ref.existing id) c.municipality

module _ (host : Host) where
  abbrev pub score_of : Text → Text → ℕ
  score_of a b = similarity host.unicode host.floats a b

  abbrev pub better_score : ℕ → Option Text → Text → ℕ
  better_score display none name = display
  better_score display (some register) name = max_of display (score_of register name)

  unfoldable pub name_similarity : School → Text → ℕ
  name_similarity s name = better_score (score_of s.display_name name) s.register_name name

  -- The two inner loops for one candidate.
  unfoldable pub match_closings : ℕ → Candidate → ℕ → List Closing → List Match
  match_closings i cand j [] = []
  match_closings i cand j (c ∷ cs) =
      let rest = match_closings i cand (j + 1) cs in
      let score = name_similarity c.school cand.unit.name in
      if c.reregistrable
        && (in_municipality cand c.school.municipality_id && leb reregistration_threshold score)
      then record { index = i; candidate = cand; predecessor = closing j c.school; score = score }
        ∷ rest
      else rest

  unfoldable pub match_faus : ℕ → Candidate → ℕ → List FauClosing → List Match
  match_faus i cand k [] = []
  match_faus i cand k (f ∷ fs) =
      let rest = match_faus i cand (k + 1) fs in
      let score = name_similarity f.school cand.unit.name in
      if f.reregistrable
        && (in_municipality cand f.school.municipality_id && leb reregistration_threshold score)
      then record { index = i; candidate = cand; predecessor = fau k f.school; score = score }
        ∷ rest
      else rest

  unfoldable pub all_matches : ℕ → List Candidate → List Closing → List FauClosing → List Match
  all_matches i [] closings faus = []
  all_matches i (cand ∷ cands) closings faus =
      match_closings i cand 0 closings
      ++ (match_faus i cand 0 faus ++ all_matches (i + 1) cands closings faus)

abbrev pub school_at : Predecessor → School
school_at (closing j s) = s
school_at (fau k s) = s

-- A predecessor with an FAU comes first.
abbrev pub fau_rank : Predecessor → ℕ
fau_rank (fau k s) = 0
fau_rank (closing j s) = 1

-- `unwrap_or("")`
abbrev pub orgnr_text : Option Text → Text
orgnr_text none = []
orgnr_text (some o) = o

-- `pred_key`, compared
unfoldable pub compare_keys : School → School → Ordering
compare_keys a b = then_by (text_cmp (orgnr_text a.orgnr) (orgnr_text b.orgnr)) (compare a.id b.id)

unfoldable pub compare_matches : Match → Match → Ordering
compare_matches a b = then_by (compare b.score a.score) (
    then_by (text_cmp a.candidate.unit.orgnr b.candidate.unit.orgnr) (
      then_by (compare (fau_rank a.predecessor) (fau_rank b.predecessor))
        (compare_keys (school_at a.predecessor) (school_at b.predecessor))))

-- The variables of the two loops that place; `placement` by the candidates' indices.
pub record Placing : Type 0 where
  pub placement : List (ℕ × Placement)
  pub claimed : List ℕ
  pub closings : List Closing
  pub fau_closings : List FauClosing
  pub reviews : List (Types.ReviewItem RowId)

abbrev pub claim : ℕ → Closing → Closing
claim i c = record c { successor = some (Types.Ref.new i); reason = Types.ClosureReason.merged }

abbrev pub mark : FauClosing → FauClosing
mark f = record f { reregistered = true }

-- A change of the element at an index.
unfoldable pub change_at {ℓ} : {A : Type ℓ} → ℕ → (A → A) → List A → List A
change_at n f [] = []
change_at n f (a ∷ as') =
    let here = f a ∷ as' in
    let later = a ∷ change_at (n - 1) f as' in if n == 0 then here else later

unfoldable pub reregistration_review : Floats → Match → School → Types.ReviewItem RowId
reregistration_review floats m s = record {
  kind = Types.ReviewKind.possible_reregistration;
  school = some (Types.Ref.existing s.id);
  other_school = some (Types.Ref.new m.index);
  municipality = some m.candidate.municipality;
  details =
      (codes "old_orgnr", orgnr_text s.orgnr)
      ∷ (codes "new_orgnr", m.candidate.unit.orgnr)
      ∷ (codes "old_name", s.display_name)
      ∷ (codes "new_name", m.candidate.unit.name)
      ∷ (codes "similarity", floats.two_decimals m.score)
      ∷ [];
}

abbrev pub is_placed : ℕ → List (ℕ × Placement) → Bool
is_placed i placement = Map.has_key compare i placement

module _ (floats : Floats) where
  -- The arms of the loop's `match` on the predecessor.
  unfoldable pub place_match : Placing → Match → Predecessor → Placing
  place_match p m (closing j s) = if any (λ i. i == j) p.claimed then p else record p {
    claimed = j ∷ p.claimed;
    closings = change_at j (claim m.index) p.closings;
    placement = Map.insert compare m.index (successor s.slug) p.placement;
  }
  place_match p m (fau k s) = record p {
    fau_closings = change_at k mark p.fau_closings;
    reviews = p.reviews ++ (reregistration_review floats m s ∷ []);
    placement = Map.insert compare m.index held_reregistration p.placement;
  }

  unfoldable pub place_matches : Placing → List Match → Placing
  place_matches p [] = p
  place_matches p (m ∷ ms) =
      place_matches (if is_placed m.index p.placement then p else place_match p m m.predecessor) ms

abbrev pub is_submitted : Types.Origin → Bool
is_submitted Types.Origin.submitted = true
is_submitted Types.Origin.register = false

abbrev pub is_pending_or_verified : Types.Verification → Bool
is_pending_or_verified Types.Verification.pending = true
is_pending_or_verified Types.Verification.verified = true
is_pending_or_verified Types.Verification.listed = false
is_pending_or_verified Types.Verification.rejected = false
is_pending_or_verified Types.Verification.held = false

unfoldable pub may_be_unit : Candidate → School → Bool
may_be_unit cand s =
    is_submitted s.origin
    && (not (Map.is_some s.orgnr)
        && (not (is_closed s.status)
            && (is_pending_or_verified s.verification && in_municipality cand s.municipality_id)))

-- `is_none_or(..)`: whether a school replaces the one found so far.
abbrev pub is_better : Option (School × ℕ) → School → ℕ → Bool
is_better none s score = true
is_better (some (b, best)) s score = ltb best score || (score == best && ltb s.id b.id)

unfoldable pub best : (School → ℕ) → ℕ → Option (School × ℕ) → List School → Option (School × ℕ)
best score threshold found [] = found
best score threshold found (s ∷ ss) =
    best score threshold
      (if leb threshold (score s) && is_better found s (score s) then some (s, score s) else found)
      ss

unfoldable pub submission_review : Floats → ℕ → Candidate → School → ℕ → Types.ReviewItem RowId
submission_review floats i cand s score = record {
  kind = Types.ReviewKind.possible_submission_match;
  school = some (Types.Ref.existing s.id);
  other_school = some (Types.Ref.new i);
  municipality = some cand.municipality;
  details =
      (codes "orgnr", cand.unit.orgnr)
      ∷ (codes "register_name", cand.unit.name)
      ∷ (codes "submitted_name", s.display_name)
      ∷ (codes "similarity", floats.two_decimals score)
      ∷ [];
}

abbrev pub submission_placed : Floats → Placing → ℕ → Candidate → Option (School × ℕ) → Placing
submission_placed floats p i cand none = record p {
  placement = Map.insert compare i listed p.placement;
}
submission_placed floats p i cand (some (s, score)) = record p {
  reviews = p.reviews ++ (submission_review floats i cand s score ∷ []);
  placement = Map.insert compare i held_submission p.placement;
}

module _ (host : Host) (snapshot : Types.RegisterSnapshot RowId) where
  unfoldable pub submitted_match : Candidate → Option (School × ℕ)
  submitted_match cand =
      best (λ s. name_similarity host s cand.unit.name) submission_match_threshold none
        (filter (may_be_unit cand) snapshot.schools)

  unfoldable pub place_submissions : Placing → ℕ → List Candidate → Placing
  place_submissions p i [] = p
  place_submissions p i (cand ∷ cands) =
      place_submissions
        (if is_placed i p.placement
          then p
          else submission_placed host.floats p i cand (submitted_match cand))
        (i + 1) cands

  unfoldable pub place_all : List Candidate → List Closing → List FauClosing → Placing
  place_all candidates closings fau_closings =
      let matches = sort_by compare_matches (all_matches host 0 candidates closings fau_closings) in
      let start : Placing = record {
        placement = [];
        claimed = [];
        closings = closings;
        fau_closings = fau_closings;
        reviews = [];
      } in
      place_submissions (place_matches host.floats start matches) 0 candidates
