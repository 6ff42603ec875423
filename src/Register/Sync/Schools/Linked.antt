-- ===== src/Register/Sync/Schools/Linked.antt =====
-- schools.rs, `place_all`: the two loops keep the successors linked.
use fau_portalen.Prelude.{
  ℕ, ◌+◌, ◌<◌, ◌≡◌, refl, ◌∙◌, Option, none, some, false, List, [], ◌∷◌, map, any, arith,
  if◌then◌else◌, length, get_elem?, All, ◌==◌, either_way, compare, sort_by,
}
use fau_portalen.Prelude.Map
use fau_portalen.Register.Sync.Types
use fau_portalen.Register.Sync.Similarity.{Floats}
use fau_portalen.Register.Sync.Municipalities.State.{RowId}
use fau_portalen.Register.Sync.Schools.Data.{
  Host, School, Closing, FauClosing, Candidate, held_reregistration,
}
use fau_portalen.Register.Sync.Schools.Place.{
  Predecessor, closing, fau, Match, Placing, place_match, place_matches, place_submissions,
  place_all, submission_placed, submitted_match, is_placed, compare_matches, all_matches,
}
use fau_portalen.Register.Sync.Schools.Sorted.{school_of_closing}
use fau_portalen.Register.Sync.Schools.Placed.{
  place_match-closings, submission_placed-closings, submission_placed-placed,
}
use fau_portalen.Register.Sync.Schools.Matched.{StandsAt, IsMatch, sorted-IsMatch}
use fau_portalen.Register.Sync.Schools.Successors.{IsLinked, keeps-IsLinked, claim-IsLinked}

unplaced : {A : Type 0} (o : Option A) → Map.is_some o ≡ false → o ≡ none
unplaced none h = refl
unplaced (some a) h = absurd (cc)

module _ (floats : Floats) (n : ℕ) where
  match-IsLinked :
      (p : Placing) (m : Match) (r : Predecessor)
      → Map.get compare m.index p.placement ≡ none
      → m.index < n
      → StandsAt (map school_of_closing p.closings) r
      → IsLinked n p
      → IsLinked n (place_match floats p m r)
  unfolding place_match
  match-IsLinked p m (fau k s) free below stands l =
      keeps-IsLinked n p (place_match floats p m (fau k s)) m.index held_reregistration free refl
        refl l
  match-IsLinked p m (closing j s) free below stands l =
      either_way (IsLinked n) (any (λ i. i == j) p.claimed) (λ t. l)
        (λ t. claim-IsLinked n p _ j m.index s free below stands refl refl l)

  round-IsLinked :
      (p : Placing) (m : Match)
      → IsMatch (map school_of_closing p.closings) n m
      → IsLinked n p
      → IsLinked n
          (if is_placed m.index p.placement then p else place_match floats p m m.predecessor)
  round-IsLinked p m h l =
      either_way (IsLinked n) (is_placed m.index p.placement) (λ t. l)
        (λ t. match-IsLinked p m m.predecessor (unplaced _ t) h.below h.stands l)

  round-closings :
      (p : Placing) (m : Match)
      → map school_of_closing
          (if is_placed m.index p.placement
            then p
            else place_match floats p m m.predecessor).closings
        ≡ map school_of_closing p.closings
  round-closings p m =
      either_way
        (λ (q : Placing). map school_of_closing q.closings ≡ map school_of_closing p.closings)
        (is_placed m.index p.placement) (λ t. refl)
        (λ t. place_match-closings floats p m m.predecessor)

  matches-IsLinked :
      (p : Placing) (ms : List Match) (schools : List School)
      → map school_of_closing p.closings ≡ schools
      → All (IsMatch schools n) ms
      → IsLinked n p
      → IsLinked n (place_matches floats p ms)
  unfolding place_matches
  matches-IsLinked p [] schools e h l = l
  matches-IsLinked p (m ∷ ms) schools e h l =
      matches-IsLinked
        (if is_placed m.index p.placement then p else place_match floats p m m.predecessor) ms
        schools (round-closings p m ∙ e) h.1 (round-IsLinked p m (rw e h.0) l)

module _ (host : Host) (snapshot : Types.RegisterSnapshot RowId) (n : ℕ) where
  submission-IsLinked :
      (p : Placing) (i : ℕ) (cand : Candidate)
      → Map.get compare i p.placement ≡ none
      → IsLinked n p
      → IsLinked n (submission_placed host.floats p i cand (submitted_match host snapshot cand))
  submission-IsLinked p i cand free l =
      let o = submitted_match host snapshot cand in
      let (v, e) = submission_placed-placed host.floats p i cand o in
      keeps-IsLinked n p (submission_placed host.floats p i cand o) i v free e
        (submission_placed-closings host.floats p i cand o) l

  submissions-IsLinked :
      (p : Placing) (i : ℕ) (cands : List Candidate)
      → IsLinked n p
      → IsLinked n (place_submissions host snapshot p i cands)
  unfolding place_submissions
  submissions-IsLinked p i [] l = l
  submissions-IsLinked p i (cand ∷ cands) l =
      submissions-IsLinked
        (if is_placed i p.placement
          then p
          else submission_placed host.floats p i cand (submitted_match host snapshot cand))
        (i + 1) cands
        (either_way (IsLinked n) (is_placed i p.placement) (λ t. l)
          (λ t. submission-IsLinked p i cand (unplaced _ t) l))

abbrev pub IsOpen : List Closing → Type 0
IsOpen closings = (a : ℕ) (c : Closing) → get_elem? closings a ≡ some c → c.successor ≡ none

-- Placing gives a successor only to a school that then closes as merged: the successor is the number of
-- a candidate, which is placed as that school's successor with its slug, and no two closing schools get
-- one successor. At the start no closing has a successor.
pub place_all-IsLinked :
    (host : Host) (snapshot : Types.RegisterSnapshot RowId) (cands : List Candidate)
    (closings : List Closing) (faus : List FauClosing)
    → IsOpen closings
    → IsLinked (length cands) (place_all host snapshot cands closings faus)
unfolding place_all
place_all-IsLinked host snapshot cands closings faus h =
    let start : Placing = record {
      placement = [];
      claimed = [];
      closings = closings;
      fau_closings = faus;
      reviews = [];
    } in
    let ms = sort_by compare_matches (all_matches host 0 cands closings faus) in
    submissions-IsLinked host snapshot (length cands) (place_matches host.floats start ms) 0 cands (
      matches-IsLinked host.floats (length cands) start ms (map school_of_closing closings) refl
        (sorted-IsMatch host closings faus (length cands) cands (omega arith))
        (record {
          linked = λ a c r x y. let z = h a c x in absurd (cc);
          once = λ a b c d r x y u v. let z = h a c x in absurd (cc);
        }))
