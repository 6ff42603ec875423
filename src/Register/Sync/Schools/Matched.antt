-- ===== src/Register/Sync/Schools/Matched.antt =====
-- schools.rs, `place_all`: what the matches refer to.
use fau_portalen.Prelude.{
  ℕ, suc, ◌+◌, ◌<◌, ◌≤◌, ◌≡◌, ap, ◌∙◌, some, ◌&&◌, List, [], ◌∷◌, map, arith, length, get_elem?,
  All, All-append, All-mem, All-of, either_way, sort_by, sort_by-mem, leb,
}
use fau_portalen.Register.Sync.Similarity.{reregistration_threshold}
use fau_portalen.Register.Sync.Schools.Data.{Host, School, Closing, FauClosing, Candidate}
use fau_portalen.Register.Sync.Schools.Place.{
  Predecessor, closing, fau, Match, in_municipality, name_similarity, match_closings, match_faus,
  all_matches, compare_matches,
}
use fau_portalen.Register.Sync.Schools.Sorted.{school_of_closing}

-- A predecessor stands at its index.
abbrev pub StandsAt : List School → Predecessor → Type 0
StandsAt schools (closing j s) = get_elem? schools j ≡ some s
StandsAt schools (fau k s) = Unit

-- A match of a candidate below a number and of a predecessor that stands at its index.
pub record IsMatch (schools : List School) (n : ℕ) (m : Match) : Type 0 where
  pub below : m.index < n
  pub stands : StandsAt schools m.predecessor

module _ (host : Host) (schools : List School) (n i : ℕ) (cand : Candidate) (h : i < n) where
  closings-IsMatch :
      (j : ℕ) (cs : List Closing)
      → ((k : ℕ) → get_elem? schools (j + k) ≡ get_elem? (map school_of_closing cs) k)
      → All (IsMatch schools n) (match_closings host i cand j cs)
  unfolding match_closings
  closings-IsMatch j [] e = _
  closings-IsMatch j (c ∷ cs) e =
      let rest =
        closings-IsMatch (j + 1) cs
          (λ k. let q : j + 1 + k ≡ j + suc k = omega arith in rw q (e (suc k))) in
      let here : get_elem? schools j ≡ some c.school =
        let q : j ≡ j + 0 = omega arith in ap (get_elem? schools) q ∙ e 0 in
      either_way (All (IsMatch schools n))
        (c.reregistrable
          && (in_municipality cand c.school.municipality_id
              && leb reregistration_threshold (name_similarity host c.school cand.unit.name)))
        (λ t. (record { below = h; stands = here }, rest)) (λ t. rest)

  faus-IsMatch :
      (k : ℕ) (fs : List FauClosing) → All (IsMatch schools n) (match_faus host i cand k fs)
  unfolding match_faus
  faus-IsMatch k [] = _
  faus-IsMatch k (f ∷ fs) =
      either_way (All (IsMatch schools n))
        (f.reregistrable
          && (in_municipality cand f.school.municipality_id
              && leb reregistration_threshold (name_similarity host f.school cand.unit.name)))
        (λ t. (record { below = h; stands = _ }, faus-IsMatch (k + 1) fs))
        (λ t. faus-IsMatch (k + 1) fs)

module _ (host : Host) (closings : List Closing) (faus : List FauClosing) (n : ℕ) where
  all_matches-IsMatch :
      (i : ℕ) (cands : List Candidate)
      → i + length cands ≤ n
      → All (IsMatch (map school_of_closing closings) n) (all_matches host i cands closings faus)
  unfolding all_matches
  all_matches-IsMatch i [] h = _
  all_matches-IsMatch i (cand ∷ cands) h =
      let schools = map school_of_closing closings in
      All-append (IsMatch schools n) (match_closings host i cand 0 closings) _
        (closings-IsMatch host schools n i cand (omega arith) 0 closings
          (λ k. let q : 0 + k ≡ k = omega arith in ap (get_elem? schools) q))
        (All-append (IsMatch schools n) (match_faus host i cand 0 faus) _
          (faus-IsMatch host schools n i cand (omega arith) 0 faus)
          (all_matches-IsMatch (i + 1) cands (omega arith)))

  pub sorted-IsMatch :
      (cands : List Candidate)
      → length cands ≤ n
      → All
          (IsMatch (map school_of_closing closings) n)
          (sort_by compare_matches (all_matches host 0 cands closings faus))
  sorted-IsMatch cands h =
      let P = IsMatch (map school_of_closing closings) n in
      All-of P _ (λ m k.
        All-mem P (all_matches host 0 cands closings faus)
          (all_matches-IsMatch 0 cands (omega arith)) (sort_by-mem compare_matches m _ k))
