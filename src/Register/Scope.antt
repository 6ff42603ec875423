-- ===== src/Register/Scope.antt =====
-- register/scope.rs: which NSR units can have an FAU.
use fau_portalen.Prelude.{
  ℤ, is_nat, ◌≡◌, ◌↔◌, Option, none, some, Bool, true, false, ◌||◌, not, List, [], ◌∷◌, Memᴰ, arith,
  if◌then◌else◌, any, find, refl, ap,
}
use fau_portalen.Text.{Text, codes, text_eq, has_prefix}

pub record NsrScopeFacts : Type 0 where
  pub is_school : Bool
  pub is_active : Bool
  pub is_primary_school : Bool
  pub municipality_number : Text
  pub category_ids : List Text
  pub primary_nace : Option Text

pub data OutOfScopeReason : Type 0 where
  not_a_school inactive not_primary_school abroad adult_education upper_secondary : OutOfScopeReason

unfoldable pub reason_code : OutOfScopeReason → Text
reason_code not_a_school = codes "not_a_school"
reason_code inactive = codes "inactive"
reason_code not_primary_school = codes "not_grunnskole"
reason_code abroad = codes "abroad"
reason_code adult_education = codes "adult_education"
reason_code upper_secondary = codes "upper_secondary"

pub data ScopeDecision : Type 0 where
  in_scope : ScopeDecision
  out_of_scope : OutOfScopeReason → ScopeDecision

unfoldable pub decision_code : ScopeDecision → Text
unfolding reason_code
decision_code in_scope = codes "in_scope"
decision_code (out_of_scope reason) = reason_code reason

abbrev pub scope_reason_codes : List Text
scope_reason_codes =
    codes "in_scope"
    ∷ codes "not_a_school"
    ∷ codes "inactive"
    ∷ codes "not_grunnskole"
    ∷ codes "abroad"
    ∷ codes "adult_education"
    ∷ codes "upper_secondary"
    ∷ []

-- The last `match`, on the primary industry code.
unfoldable pub classify_nace : Option Text → ScopeDecision
classify_nace none = in_scope
classify_nace (some code) =
    if text_eq code (codes "85.593")
    then out_of_scope adult_education
    else if has_prefix (codes "85.3") code
    then out_of_scope upper_secondary
    else in_scope

abbrev pub is_adult_category : Text → Bool
is_adult_category c = text_eq c (codes "10") || text_eq c (codes "25")

unfoldable pub classify : NsrScopeFacts → ScopeDecision
classify facts =
    if not facts.is_school
    then out_of_scope not_a_school
    else if not facts.is_active
    then out_of_scope inactive
    else if not facts.is_primary_school
    then out_of_scope not_primary_school
    else if text_eq facts.municipality_number (codes "2599")
    then out_of_scope abroad
    else if any is_adult_category facts.category_ids
    then out_of_scope adult_education
    else classify_nace facts.primary_nace

unfoldable pub effective_in_scope : Bool → Option Bool → Bool
effective_in_scope classified none = classified
effective_in_scope classified (some operator_override) = operator_override

-- `find(|(priority, _)| *priority == 1)`
unfoldable pub primary_nace : List (ℤ × Text) → Option Text
primary_nace [] = none
primary_nace ((priority, code) ∷ rest) =
    let later = primary_nace rest in if is_nat 1 priority then some code else later

abbrev pub NaceInScope : Option Text → Type 0
NaceInScope none = Unit
NaceInScope (some code) =
    (text_eq code (codes "85.593") ≡ false) × (has_prefix (codes "85.3") code ≡ false)

-- §2.3's filter: a grunnskole in operation, in Norway, that is neither adult education nor upper
-- secondary.
pub record IsInScope (facts : NsrScopeFacts) : Type 0 where
  pub school : facts.is_school ≡ true
  pub operating : facts.is_active ≡ true
  pub primary : facts.is_primary_school ≡ true
  pub domestic : text_eq facts.municipality_number (codes "2599") ≡ false
  pub for_children : any is_adult_category facts.category_ids ≡ false
  pub industry : NaceInScope facts.primary_nace

nace_iff : (o : Option Text) → (classify_nace o ≡ in_scope) ↔ NaceInScope o
unfolding classify_nace
nace_iff none = (λ h. tt, λ h. refl)
nace_iff (some code) = ground arith

IsInScope-of : (facts : NsrScopeFacts) → classify facts ≡ in_scope → IsInScope facts
unfolding classify
IsInScope-of facts h = record {
  school = ground arith;
  operating = ground arith;
  primary = ground arith;
  domestic = ground arith;
  for_children = ground arith;
  industry = (nace_iff facts.primary_nace).0 (ground arith);
}

classify-IsInScope : (facts : NsrScopeFacts) → IsInScope facts → classify facts ≡ in_scope
unfolding classify
classify-IsInScope facts h = ground (arith, (nace_iff facts.primary_nace).1 h.industry)

-- A unit is in scope exactly when every condition of §2.3 holds.
pub classify_iff : (facts : NsrScopeFacts) → (classify facts ≡ in_scope) ↔ IsInScope facts
classify_iff facts = (IsInScope-of facts, classify-IsInScope facts)

-- The decision that a code stands for.
decode : Text → Option ScopeDecision
decode text =
    find (λ d. text_eq (decision_code d) text)
      (in_scope
        ∷ out_of_scope not_a_school
        ∷ out_of_scope inactive
        ∷ out_of_scope not_primary_school
        ∷ out_of_scope abroad
        ∷ out_of_scope adult_education
        ∷ out_of_scope upper_secondary
        ∷ [])

decode-decision_code : (d : ScopeDecision) → decode (decision_code d) ≡ some d
unfolding decode decision_code
decode-decision_code in_scope = refl
decode-decision_code (out_of_scope not_a_school) = refl
decode-decision_code (out_of_scope _) = refl

decision_code_known : (d : ScopeDecision) → Memᴰ (decision_code d) scope_reason_codes
unfolding decision_code
decision_code_known in_scope = Memᴰ.head refl
decision_code_known (out_of_scope not_a_school) = Memᴰ.tail (Memᴰ.head refl)
decision_code_known (out_of_scope inactive) = Memᴰ.tail (Memᴰ.tail (Memᴰ.head refl))
decision_code_known (out_of_scope not_primary_school) =
    Memᴰ.tail (Memᴰ.tail (Memᴰ.tail (Memᴰ.head refl)))
decision_code_known (out_of_scope abroad) =
    Memᴰ.tail (Memᴰ.tail (Memᴰ.tail (Memᴰ.tail (Memᴰ.head refl))))
decision_code_known (out_of_scope adult_education) =
    Memᴰ.tail (Memᴰ.tail (Memᴰ.tail (Memᴰ.tail (Memᴰ.tail (Memᴰ.head refl)))))
decision_code_known (out_of_scope upper_secondary) =
    Memᴰ.tail (Memᴰ.tail (Memᴰ.tail (Memᴰ.tail (Memᴰ.tail (Memᴰ.tail (Memᴰ.head refl))))))

-- Every decision's code is one that the database accepts, and no two decisions share a code.
pub decision_code_lem :
    (d e : ScopeDecision)
    → Memᴰ (decision_code d) scope_reason_codes × ((decision_code d ≡ decision_code e) ↔ (d ≡ e))
decision_code_lem d e = (
  decision_code_known d,
  (λ h. cc (decode-decision_code d, decode-decision_code e, ap decode h), ap decision_code),
)
