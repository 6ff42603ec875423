-- ===== src/Register/Sync/Types.antt =====
-- register/sync/types.rs: the snapshot that the planner reads, its inputs, and the plan it returns.
-- `Row` is the caller's row id, the source's type parameter `Id`.
pub mod Codes
use fau_portalen.Prelude.{
  ℕ, ℤ, Option, some, none, Bool, true, false, List, ◌≡◌, if◌then◌else◌, arith, ◌⊎◌,
}
use fau_portalen.Text.{Text}
use fau_portalen.Calendar.{Date, Timestamp, Moment}
use fau_portalen.Register.Source.{OfficialName, MunicipalityRecord, CodeChange, NsrUnit, NsrAddress}

pub data Ref {ℓ} (Row : Type ℓ) : Type ℓ where
  existing : Row → Ref Row
  new : ℕ → Ref Row

pub data MunicipalityStatus : Type 0 where
  active dissolved : MunicipalityStatus

pub data MunicipalitySource : Type 0 where
  kartverket manual : MunicipalitySource

pub record MunicipalitySnapshot {ℓ} (Row : Type ℓ) : Type ℓ where
  pub id : Row
  pub number : Text
  pub name : Text
  pub official_name : Option Text
  pub county_number : Text
  pub county_name : Text
  pub slug : Text
  pub status : MunicipalityStatus
  pub source : MunicipalitySource
  pub names : List OfficialName

pub data Origin : Type 0 where
  register submitted : Origin

pub data Verification : Type 0 where
  listed pending verified rejected held : Verification

pub data SchoolStatus : Type 0 where
  active closed : SchoolStatus

pub data Ownership : Type 0 where
  public private : Ownership

pub record SchoolAttributes : Type 0 where
  pub ownership : Option Ownership
  pub grade_from : Option ℤ
  pub grade_to : Option ℤ
  pub language : Option Text
  pub website : Option Text
  pub street_address : Option Text
  pub postcode : Option Text
  pub post_town : Option Text

-- `Option::is_some`
abbrev pub is_some {ℓ} : {A : Type ℓ} → Option A → Bool
is_some none = false
is_some (some a) = true

-- The address that `SchoolAttributes::from_unit` takes.
unfoldable pub unit_address : NsrUnit → NsrAddress
unit_address unit = if is_some unit.visiting.street then unit.visiting else unit.postal

unfoldable pub from_unit : NsrUnit → SchoolAttributes
from_unit unit =
    let address = unit_address unit in
    record {
      ownership = some (if unit.is_private then private else public);
      grade_from = unit.grade_from;
      grade_to = unit.grade_to;
      language = unit.language;
      website = unit.website;
      street_address = address.street;
      postcode = address.postcode;
      post_town = address.post_town;
    }

pub record SchoolSnapshot {ℓ} (Row : Type ℓ) : Type ℓ where
  pub id : Row
  pub municipality_id : Row
  pub origin : Origin
  pub orgnr : Option Text
  pub register_name : Option Text
  pub display_name : Text
  pub display_name_curated : Bool
  pub slug : Option Text
  pub verification : Verification
  pub status : SchoolStatus
  pub in_scope : Bool
  pub scope_override : Option Bool
  pub has_live_fau : Bool
  pub attributes : SchoolAttributes

pub record RegisterSnapshot {ℓ} (Row : Type ℓ) : Type ℓ where
  pub municipalities : List (MunicipalitySnapshot Row)
  pub schools : List (SchoolSnapshot Row)
  pub school_orgnr_history : List (Text × Row)
  pub school_slug_history : List (Row × Text × Row)
  pub municipality_slug_history : List (Text × Row)

pub data RunKind : Type 0 where
  seed sync : RunKind

pub record SyncInputs : Type 0 where
  pub municipalities : List MunicipalityRecord
  pub code_changes : List CodeChange
  pub units : List NsrUnit
  pub kind : RunKind
  pub at : Moment

pub record NewMunicipality : Type 0 where
  pub new : ℕ
  pub number : Text
  pub name : Text
  pub official_name : Option Text
  pub county_number : Text
  pub county_name : Text
  pub slug : Text
  pub names : List OfficialName
  pub source : MunicipalitySource

pub record Renumbering {ℓ} (Row : Type ℓ) : Type ℓ where
  pub id : Row
  pub from : Text
  pub to : Text
  pub valid_from : Date
  pub name : Option Text
  pub old_slug : Text
  pub new_slug : Text

pub record MunicipalityRename {ℓ} (Row : Type ℓ) : Type ℓ where
  pub id : Row
  pub name : Text
  pub old_slug : Text
  pub new_slug : Text

pub record MunicipalityDetails {ℓ} (Row : Type ℓ) : Type ℓ where
  pub id : Row
  pub official_name : Option Text
  pub county_number : Text
  pub county_name : Text
  pub names : List OfficialName

-- A variant with named fields is a constructor over a record of those fields.
pub data MunicipalityOp {ℓ} (Row : Type ℓ) : Type ℓ where
  create : NewMunicipality → MunicipalityOp Row
  renumber : Renumbering Row → MunicipalityOp Row
  rename : MunicipalityRename Row → MunicipalityOp Row
  update_details : MunicipalityDetails Row → MunicipalityOp Row

pub record SlugChange : Type 0 where
  pub old : Option Text
  pub new : Text

pub data CreateVerification : Type 0 where
  listed held : CreateVerification

pub data ClosureReason : Type 0 where
  closed merged duplicate out_of_scope : ClosureReason

pub record NewSchool {ℓ} (Row : Type ℓ) : Type ℓ where
  pub new : ℕ
  pub municipality : Ref Row
  pub orgnr : Text
  pub register_name : Text
  pub display_name : Text
  pub slug : Option Text
  pub verification : CreateVerification
  pub in_scope : Bool
  pub attributes : SchoolAttributes
  pub source_changed_at : Option Timestamp

pub record SchoolRename {ℓ} (Row : Type ℓ) : Type ℓ where
  pub id : Row
  pub register_name : Text
  pub display_name : Option Text
  pub slug : Option SlugChange

pub record AttributeUpdate {ℓ} (Row : Type ℓ) : Type ℓ where
  pub id : Row
  pub attributes : SchoolAttributes

pub record SchoolMove {ℓ} (Row : Type ℓ) : Type ℓ where
  pub id : Row
  pub from : Row
  pub to : Ref Row
  pub slug : Option SlugChange

pub record SchoolClosure {ℓ} (Row : Type ℓ) : Type ℓ where
  pub id : Row
  pub reason : ClosureReason
  pub closed_on : Date
  pub successor : Option (Ref Row)

pub data SchoolOp {ℓ} (Row : Type ℓ) : Type ℓ where
  create : NewSchool Row → SchoolOp Row
  rename : SchoolRename Row → SchoolOp Row
  update_attributes : AttributeUpdate Row → SchoolOp Row
  move : SchoolMove Row → SchoolOp Row
  close : SchoolClosure Row → SchoolOp Row

pub data ReviewKind : Type 0 where
  closure_with_fau possible_reregistration possible_submission_match municipality_split_or_merge
        mass_change unknown_municipality_number fau_several_at_school fau_several_schools
        fau_match_conflict submission_matches_listed_school :
      ReviewKind

pub record ReviewItem {ℓ} (Row : Type ℓ) : Type ℓ where
  pub kind : ReviewKind
  pub school : Option (Ref Row)
  pub other_school : Option (Ref Row)
  pub municipality : Option (Ref Row)
  pub details : List (Text × Text)

pub record Counts : Type 0 where
  pub municipalities_created : ℕ
  pub municipalities_updated : ℕ
  pub renumbered : ℕ
  pub renamed : ℕ
  pub schools_created : ℕ
  pub schools_renamed : ℕ
  pub schools_updated : ℕ
  pub attribute_losses : ℕ
  pub schools_moved : ℕ
  pub schools_closed : ℕ
  pub schools_held : ℕ
  pub reviews : ℕ
  pub skipped : ℕ

pub record SyncPlan {ℓ} (Row : Type ℓ) : Type ℓ where
  pub municipality_ops : List (MunicipalityOp Row)
  pub school_ops : List (SchoolOp Row)
  pub reviews : List (ReviewItem Row)
  pub counts : Counts

pub record MassChange : Type 0 where
  pub closes : ℕ
  pub renames : ℕ
  pub attribute_losses : ℕ
  pub active : ℕ

pub data AbortReason : Type 0 where
  empty_source : Text → AbortReason
  mass_change : MassChange → AbortReason

pub data SyncOutcome {ℓ} (Row : Type ℓ) : Type ℓ where
  no_change : SyncOutcome Row
  apply : SyncPlan Row → SyncOutcome Row
  abort : AbortReason → Counts → SyncOutcome Row
