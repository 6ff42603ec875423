-- ===== src/Register/Sync/Types/Codes.antt =====
-- register/sync/types.rs: the codes that the database holds for the planner's values.
use Prim.Native.String.{String}
use mathlib.Core.List.Memᴰ as MemD
use fau_portalen.Prelude.{◌≡◌, ◌↔◌, refl, ap, some, List, [], ◌∷◌, map, Memᴰ}
use fau_portalen.Membership.Vocabulary.{from_code}
use fau_portalen.Register.Sync.Types.{
  MunicipalitySource, kartverket, manual, Ownership, public, private, CreateVerification,
  ClosureReason, ReviewKind, closure_with_fau, possible_reregistration, possible_submission_match,
  municipality_split_or_merge, unknown_municipality_number, fau_several_at_school,
  fau_several_schools, fau_match_conflict, submission_matches_listed_school,
}

unfoldable pub municipality_source_code : MunicipalitySource → String
municipality_source_code kartverket = "kartverket"
municipality_source_code manual = "manual"

unfoldable pub ownership_code : Ownership → String
ownership_code public = "public"
ownership_code private = "private"

unfoldable pub create_verification_code : CreateVerification → String
create_verification_code CreateVerification.listed = "listed"
create_verification_code CreateVerification.held = "held"

unfoldable pub closure_reason_code : ClosureReason → String
closure_reason_code ClosureReason.closed = "closed"
closure_reason_code ClosureReason.merged = "merged"
closure_reason_code ClosureReason.duplicate = "duplicate"
closure_reason_code ClosureReason.out_of_scope = "out_of_scope"

unfoldable pub review_kind_code : ReviewKind → String
review_kind_code closure_with_fau = "closure_with_fau"
review_kind_code possible_reregistration = "possible_reregistration"
review_kind_code possible_submission_match = "possible_submission_match"
review_kind_code municipality_split_or_merge = "municipality_split_or_merge"
review_kind_code ReviewKind.mass_change = "mass_change"
review_kind_code unknown_municipality_number = "unknown_municipality_number"
review_kind_code fau_several_at_school = "fau_several_at_school"
review_kind_code fau_several_schools = "fau_several_schools"
review_kind_code fau_match_conflict = "fau_match_conflict"
review_kind_code submission_matches_listed_school = "submission_matches_listed_school"

abbrev pub review_kind_codes : List String
review_kind_codes =
    "closure_with_fau" ∷ "possible_reregistration" ∷ "possible_submission_match"
    ∷ "municipality_split_or_merge" ∷ "mass_change" ∷ "unknown_municipality_number"
    ∷ "fau_several_at_school" ∷ "fau_several_schools" ∷ "fau_match_conflict"
    ∷ "submission_matches_listed_school" ∷ []

all_kinds : List ReviewKind
all_kinds =
    closure_with_fau ∷ possible_reregistration ∷ possible_submission_match
    ∷ municipality_split_or_merge ∷ ReviewKind.mass_change ∷ unknown_municipality_number
    ∷ fau_several_at_school ∷ fau_several_schools ∷ fau_match_conflict
    ∷ submission_matches_listed_school ∷ []

kind_decodes : (k : ReviewKind) → from_code all_kinds review_kind_code (review_kind_code k) ≡ some k
unfolding from_code all_kinds review_kind_code
kind_decodes closure_with_fau = refl
kind_decodes _ = refl

kind_known : (k : ReviewKind) → Memᴰ k all_kinds
unfolding all_kinds
kind_known closure_with_fau = search (Memᴰ.head, Memᴰ.tail, refl) depth 12
kind_known _ = search (Memᴰ.head, Memᴰ.tail, refl) depth 12

kinds_codes : map review_kind_code all_kinds ≡ review_kind_codes
unfolding all_kinds review_kind_code
kinds_codes = refl

-- Every review kind's code is one of those that the database accepts, and no two kinds share a code.
pub review_kind_code_lem :
    (k l : ReviewKind)
    → Memᴰ (review_kind_code k) review_kind_codes
      × ((review_kind_code k ≡ review_kind_code l) ↔ (k ≡ l))
review_kind_code_lem k l = (
  rw (← kinds_codes) (MemD.map review_kind_code (kind_known k)),
  (
    λ h. cc (kind_decodes k, kind_decodes l, ap (from_code all_kinds review_kind_code) h),
    ap review_kind_code,
  ),
)
