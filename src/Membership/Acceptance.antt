-- ===== src/Membership/Acceptance.antt =====
-- membership/acceptance.rs: when an invitation may be accepted.
use fau_portalen.Prelude.{
  inl, inr, refl, ◌||◌, Bool-cases, ◌<◌, ◌≡◌, ◌↔◌, Result, ok, err, ◌>>◌, refuse_if, Bool, true,
  false, ◌&&◌, not, arith, leb,
}
use fau_portalen.Calendar.{Timestamp}
use fau_portalen.Text.{text_eq, text_eq_iff}
use fau_portalen.Email.{Email, VerifiedEmail}
use fau_portalen.Membership.Vocabulary.{
  InvitationMode, normal, activation, handover, recovery, TenantStatus,
}

pub record AcceptanceSnapshot : Type 0 where
  pub mode : InvitationMode
  pub expires_at : Timestamp
  pub accepted : Bool
  pub revoked : Bool
  pub recipient : Email
  pub acceptor : VerifiedEmail
  pub acceptor_account_disabled : Bool
  pub tenant_status : TenantStatus
  pub tenant_frozen : Bool
  pub issuer_admin_today : Bool
  pub handover_grant_valid_today : Bool
  pub tenant_has_admin_today : Bool
  pub recovery_seat_matches_today : Bool

pub data AcceptanceRefusal : Type 0 where
  is_revoked already_accepted expired email_mismatch account_disabled tenant_not_active is_frozen
        issuer_lacks_authority :
      AcceptanceRefusal

abbrev pub is_active : TenantStatus → Bool
is_active TenantStatus.active = true
is_active TenantStatus.pending = false
is_active TenantStatus.closed = false

-- The `match` on the mode.
abbrev pub mode_authorised : InvitationMode → AcceptanceSnapshot → Bool
mode_authorised normal s = s.issuer_admin_today
mode_authorised handover s = s.handover_grant_valid_today
mode_authorised recovery s = not s.tenant_has_admin_today && s.recovery_seat_matches_today
mode_authorised activation s = true

unfoldable pub check_acceptance :
    AcceptanceSnapshot → Timestamp → Result AcceptanceRefusal (Unit {0})
check_acceptance s now = do
  refuse_if s.revoked is_revoked
  refuse_if s.accepted already_accepted
  refuse_if (leb s.expires_at now) expired
  refuse_if (not (text_eq s.recipient.text s.acceptor.email.text)) email_mismatch
  refuse_if s.acceptor_account_disabled account_disabled
  refuse_if (not (is_active s.tenant_status)) tenant_not_active
  refuse_if s.tenant_frozen is_frozen
  refuse_if (not (mode_authorised s.mode s)) issuer_lacks_authority
  ok tt

-- The authority that each mode asks of the invitation.
abbrev pub HasAuthority : InvitationMode → AcceptanceSnapshot → Type 0
HasAuthority normal s = s.issuer_admin_today ≡ true
HasAuthority handover s = s.handover_grant_valid_today ≡ true
HasAuthority recovery s =
    (s.tenant_has_admin_today ≡ false) × (s.recovery_seat_matches_today ≡ true)
HasAuthority activation s = Unit

-- What §5.1 asks of an acceptance, as a list of facts.
pub record IsAcceptable (s : AcceptanceSnapshot) (now : Timestamp) : Type 0 where
  pub live : s.revoked ≡ false
  pub unused : s.accepted ≡ false
  pub in_time : now < s.expires_at
  pub addressed : s.recipient.text ≡ s.acceptor.email.text
  pub enabled : s.acceptor_account_disabled ≡ false
  pub serving : s.tenant_status ≡ TenantStatus.active
  pub thawed : s.tenant_frozen ≡ false
  pub authority : HasAuthority s.mode s

authority_iff :
    (m : InvitationMode) (s : AcceptanceSnapshot) → (mode_authorised m s ≡ true) ↔ HasAuthority m s
authority_iff normal s = (λ h. h, λ h. h)
authority_iff handover s = (λ h. h, λ h. h)
authority_iff recovery s = ground arith
authority_iff activation s = (λ h. tt, λ h. refl)

IsAcceptable-of :
    (s : AcceptanceSnapshot) (now : Timestamp) → check_acceptance s now ≡ ok tt → IsAcceptable s now
unfolding check_acceptance
IsAcceptable-of s now h = record {
  live = ground arith;
  unused = ground arith;
  in_time = ground arith;
  addressed = (text_eq_iff s.recipient.text s.acceptor.email.text).0 (ground arith);
  enabled = ground arith;
  serving = ground arith;
  thawed = ground arith;
  authority = (authority_iff s.mode s).0 (ground arith);
}

check_acceptance-IsAcceptable :
    (s : AcceptanceSnapshot) (now : Timestamp) → IsAcceptable s now → check_acceptance s now ≡ ok tt
unfolding check_acceptance
check_acceptance-IsAcceptable s now h = ground (
  arith,
  (text_eq_iff s.recipient.text s.acceptor.email.text).1 h.addressed,
  (authority_iff s.mode s).1 h.authority,
)

-- An invitation is accepted exactly when every condition of §5.1 holds.
pub check_acceptance_iff :
    (s : AcceptanceSnapshot) (now : Timestamp)
    → (check_acceptance s now ≡ ok tt) ↔ IsAcceptable s now
check_acceptance_iff s now = (IsAcceptable-of s now, check_acceptance-IsAcceptable s now)

-- The token's own state refuses it: it is revoked, used or out of time.
abbrev pub is_dead : AcceptanceSnapshot → Timestamp → Bool
is_dead s now = s.revoked || (s.accepted || leb s.expires_at now)

-- The refusals that speak of the token itself.
abbrev pub IsTokenRefusal : AcceptanceRefusal → Type 0
IsTokenRefusal is_revoked = Unit
IsTokenRefusal already_accepted = Unit
IsTokenRefusal expired = Unit
IsTokenRefusal email_mismatch = ⊥
IsTokenRefusal account_disabled = ⊥
IsTokenRefusal tenant_not_active = ⊥
IsTokenRefusal is_frozen = ⊥
IsTokenRefusal issuer_lacks_authority = ⊥

dead_refused :
    (s : AcceptanceSnapshot) (now : Timestamp)
    → is_dead s now ≡ true
    → (r : AcceptanceRefusal) × (check_acceptance s now ≡ err r) × IsTokenRefusal r
unfolding check_acceptance
dead_refused s now h = elim (Bool-cases s.revoked) [
  | inl t ↦ (is_revoked, ground arith, tt)
  | inr f ↦ elim (Bool-cases s.accepted) [
    | inl t ↦ (already_accepted, ground arith, tt)
    | inr g ↦ (expired, ground arith, tt)
  ]
]

refused_dead :
    (s : AcceptanceSnapshot) (now : Timestamp) (r : AcceptanceRefusal)
    → check_acceptance s now ≡ err r
    → IsTokenRefusal r
    → is_dead s now ≡ true
unfolding check_acceptance
refused_dead s now is_revoked h k = ground arith
refused_dead s now already_accepted h k = ground arith
refused_dead s now expired h k = ground arith
refused_dead s now email_mismatch h k = absurd k
refused_dead s now account_disabled h k = absurd k
refused_dead s now tenant_not_active h k = absurd k
refused_dead s now is_frozen h k = absurd k
refused_dead s now issuer_lacks_authority h k = absurd k

-- The token's own state is answered before anything about the person, the FAU or the issuer: the
-- refusal is one of the three about the token exactly when the invitation is revoked, already
-- accepted or past its deadline.
pub check_acceptance-IsTokenRefusal :
    (s : AcceptanceSnapshot) (now : Timestamp)
    → (is_dead s now ≡ true)
      ↔ ((r : AcceptanceRefusal) × (check_acceptance s now ≡ err r) × IsTokenRefusal r)
check_acceptance-IsTokenRefusal s now = (dead_refused s now, λ (r, h, k). refused_dead s now r h k)
