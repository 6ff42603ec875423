-- ===== src/Membership/Vocabulary.antt =====
-- membership/vocabulary.rs: the closed sets of the membership model and the codes that the database
-- holds for them. The macro `codes!` writes `ALL`, `code` and `from_code` from one list; here each
-- type has its `all` and its `code`, and `from_code` compares with the codes in the order of `all`.
pub mod Names
use Prim.Native.String.{String}
use text.Mathlib.Text.{◌==◌ as str_eq}
use text.Mathlib.TextEquality.{eq_iff}
use fau_portalen.Prelude.{
  ◌≡◌, refl, Bool, Option, none, some, List, [], ◌∷◌, Memᴰ, arith, find, Bool-cases, inl, inr,
}

pub data CapabilityClass : Type 0 where
  member admin guest : CapabilityClass

pub data TenantStatus : Type 0 where
  pending active closed : TenantStatus

pub data InvitationMode : Type 0 where
  normal activation handover recovery : InvitationMode

pub data RequestKind : Type 0 where
  access replacement : RequestKind

pub data RequestStatus : Type 0 where
  pending approved declined withdrawn lapsed : RequestStatus

pub data RecoveryHolder : Type 0 where
  ewb school_rep : RecoveryHolder

pub data Visibility : Type 0 where
  open_group closed_group : Visibility

abbrev pub capability_class_all : List CapabilityClass
capability_class_all = CapabilityClass.member ∷ CapabilityClass.admin ∷ CapabilityClass.guest ∷ []

unfoldable pub capability_class_code : CapabilityClass → String
capability_class_code CapabilityClass.member = "member"
capability_class_code CapabilityClass.admin = "admin"
capability_class_code CapabilityClass.guest = "guest"

abbrev pub visibility_all : List Visibility
visibility_all = open_group ∷ closed_group ∷ []

unfoldable pub visibility_code : Visibility → String
visibility_code open_group = "open"
visibility_code closed_group = "closed"

abbrev pub tenant_status_all : List TenantStatus
tenant_status_all = TenantStatus.pending ∷ TenantStatus.active ∷ TenantStatus.closed ∷ []

unfoldable pub tenant_status_code : TenantStatus → String
tenant_status_code TenantStatus.pending = "pending"
tenant_status_code TenantStatus.active = "active"
tenant_status_code TenantStatus.closed = "closed"

abbrev pub invitation_mode_all : List InvitationMode
invitation_mode_all = normal ∷ activation ∷ handover ∷ recovery ∷ []

unfoldable pub invitation_mode_code : InvitationMode → String
invitation_mode_code normal = "normal"
invitation_mode_code activation = "activation"
invitation_mode_code handover = "handover"
invitation_mode_code recovery = "recovery"

abbrev pub request_kind_all : List RequestKind
request_kind_all = access ∷ replacement ∷ []

unfoldable pub request_kind_code : RequestKind → String
request_kind_code access = "access"
request_kind_code replacement = "replacement"

abbrev pub request_status_all : List RequestStatus
request_status_all =
    RequestStatus.pending ∷ RequestStatus.approved ∷ RequestStatus.declined
    ∷ RequestStatus.withdrawn ∷ RequestStatus.lapsed ∷ []

unfoldable pub request_status_code : RequestStatus → String
request_status_code RequestStatus.pending = "pending"
request_status_code RequestStatus.approved = "approved"
request_status_code RequestStatus.declined = "declined"
request_status_code RequestStatus.withdrawn = "withdrawn"
request_status_code RequestStatus.lapsed = "lapsed"

abbrev pub recovery_holder_all : List RecoveryHolder
recovery_holder_all = ewb ∷ school_rep ∷ []

unfoldable pub recovery_holder_code : RecoveryHolder → String
recovery_holder_code ewb = "ewb"
recovery_holder_code school_rep = "school_rep"

-- The `match` that the macro writes: the first variant whose code is the text.
unfoldable pub from_code {ℓ} : {A : Type ℓ} → List A → (A → String) → String → Option A
from_code all code text = find (λ a. str_eq (code a) text) all

-- Reading and writing agree in both directions for the values of `all`.
abbrev pub RoundTrips {ℓ} : {A : Type ℓ} → List A → (A → String) → Type ℓ
RoundTrips {A = A} all code =
    ((a : A) → from_code all code (code a) ≡ some a)
    × ((text : String) (a : A) → from_code all code text ≡ some a → code a ≡ text)

from_code_sound {ℓ} :
    {A : Type ℓ} (all : List A) (code : A → String) (text : String) (a : A)
    → from_code all code text ≡ some a
    → code a ≡ text
unfolding from_code
from_code_sound [] code text a h = absurd (cc)
from_code_sound (x ∷ all) code text a h =
    ground (arith, eq_iff (code x) text, from_code_sound all code text a)

-- Each of the seven closed sets: the code of a value reads back as that value, and a text that reads
-- as a value is that value's code, so no two values share a code.
pub codes_round_trip :
    RoundTrips capability_class_all capability_class_code
    × RoundTrips visibility_all visibility_code
    × RoundTrips tenant_status_all tenant_status_code
    × RoundTrips invitation_mode_all invitation_mode_code
    × RoundTrips request_kind_all request_kind_code
    × RoundTrips request_status_all request_status_code
    × RoundTrips recovery_holder_all recovery_holder_code
unfolding from_code capability_class_code visibility_code tenant_status_code invitation_mode_code
    request_kind_code request_status_code recovery_holder_code
codes_round_trip = (
  (
    elim [
      | CapabilityClass.member ↦ refl
      | CapabilityClass.admin ↦ refl
      | CapabilityClass.guest ↦ refl
    ],
    from_code_sound capability_class_all capability_class_code,
  ),
  (
    elim [ open_group ↦ refl | closed_group ↦ refl ],
    from_code_sound visibility_all visibility_code,
  ),
  (
    elim [ TenantStatus.pending ↦ refl | TenantStatus.active ↦ refl | TenantStatus.closed ↦ refl ],
    from_code_sound tenant_status_all tenant_status_code,
  ),
  (
    elim [ normal ↦ refl | activation ↦ refl | handover ↦ refl | recovery ↦ refl ],
    from_code_sound invitation_mode_all invitation_mode_code,
  ),
  (elim [ access ↦ refl | replacement ↦ refl ], from_code_sound request_kind_all request_kind_code),
  (
    elim [
      | RequestStatus.pending ↦ refl
      | RequestStatus.approved ↦ refl
      | RequestStatus.declined ↦ refl
      | RequestStatus.withdrawn ↦ refl
      | RequestStatus.lapsed ↦ refl
    ],
    from_code_sound request_status_all request_status_code,
  ),
  (
    elim [ ewb ↦ refl | school_rep ↦ refl ],
    from_code_sound recovery_holder_all recovery_holder_code,
  ),
)
