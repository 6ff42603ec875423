-- ===== src/Tests/Membership.antt =====
-- Tests of membership/ and authz.rs.
use fau_portalen.Prelude.{
  ◌≤◌, ◌<◌, ◌≡◌, ◌≢◌, ◌↔◌, ◌⊎◌, refl, some, true, false, [], ◌∷◌, Memᴰ, All, filter, arith, ok, err,
  any, not, ◌&&◌, ◌==◌, length, is_empty,
}
use fau_portalen.Tests.{even_months, even_months-IsCivil}
use fau_portalen.Calendar.{Date}
use fau_portalen.Text.{codes, trim, is_control, has_char, is_whitespace}
use fau_portalen.Email.{Email}
use fau_portalen.Membership.Period.{Period, contains, has_ended_by}
use fau_portalen.Membership.Vocabulary.{CapabilityClass, open_group, normal, TenantStatus}
use fau_portalen.Membership.Vocabulary.Names.{validate_name, validate_name-validate_name, IsName}
use fau_portalen.Membership.Access.{
  Capability, nothing, rank, capability_of, AssignmentView, Standing, assignment_valid_on,
  starts_later, evaluate_access, tenant_has_admin, admin_periods, removal_leaves_no_admin,
}
use fau_portalen.Membership.Access.Rights.{
  stands, evaluate_access-capability, RunsOn, evaluate_access-next_start,
}
use fau_portalen.Membership.Access.LastAdmin.{removal_leaves_no_admin_iff}
use fau_portalen.Membership.Acceptance.{
  AcceptanceSnapshot, AcceptanceRefusal, check_acceptance, check_acceptance_iff, IsAcceptable,
  is_dead, IsTokenRefusal, check_acceptance-IsTokenRefusal,
}
use fau_portalen.Membership.Rules.{
  add_months, default_admin_end, validate_admin_end, handover_period, handover_boundary,
}
use fau_portalen.Membership.Rules.AdminEnd.{
  validate_admin_end-default_admin_end, handover_period_lem,
}
use fau_portalen.Membership.Retention.{three, months, from_months, from_months_iff}
use fau_portalen.Membership.Requests.{
  cr, lf, message_max_chars, normalise_message, replace_cr, replace_crlf, check_request_limits,
  check_request_limits_iff,
}
use fau_portalen.Membership.Requests.Message.{unix_lines, normalise_message_lem}
use fau_portalen.Authz.{read, write, manage, GroupFacts, group, group_content, hidden, decide}
use fau_portalen.Authz.Rules.{
  decide_mono, decide-hidden, decide-guest, decide_guards, InOwnGroup, IsWritable,
}

abbrev term : Period
term = record { starts_on = 10; ends_on_exclusive = 20 }

abbrev long_term : Period
long_term = record { starts_on = 0; ends_on_exclusive = 30 }

validate_name_example :
    IsName 100 (codes "Kari") × (validate_name (codes "Kari") 100 ≡ ok (codes "Kari"))
validate_name_example =
    validate_name-validate_name (codes " Kari ") 100 (codes "Kari")
      (unfold validate_name trim is_control is_whitespace in refl)

abbrev leader : AssignmentView
leader = record { capability = CapabilityClass.admin; period = term; revoked = false }

abbrev carrier : AssignmentView
carrier = record { capability = CapabilityClass.admin; period = long_term; revoked = false }

abbrev good : Standing
good = record { tenant_active = true; account_usable = true; membership_active = true }

evaluate_access-capability_example :
    (rank Capability.admin ≤ rank (evaluate_access good (leader ∷ []) [] 12).capability) ↔ (
      (Capability.admin ≡ nothing)
      ⊎ ((stands good ≡ true)
          × ((a : AssignmentView) × Memᴰ a (leader ∷ [])
              × RunsOn a 12
              × (rank Capability.admin ≤ rank (capability_of a.capability)))))
evaluate_access-capability_example =
    evaluate_access-capability good (leader ∷ []) [] 12 Capability.admin

evaluate_access-next_start_example :
    ((evaluate_access good (leader ∷ []) [] 3).capability ≡ nothing)
    × (stands good ≡ true)
    × ((a : AssignmentView) × Memᴰ a (leader ∷ [])
        × (a.revoked ≡ false)
        × (a.period.starts_on ≡ 10)
        × (3 < 10))
    × All (λ (a : AssignmentView). 10 ≤ a.period.starts_on) (filter (starts_later 3) (leader ∷ []))
evaluate_access-next_start_example =
    evaluate_access-next_start good (leader ∷ []) [] 3 10
      (unfold evaluate_access assignment_valid_on contains in refl)

removal_leaves_no_admin_iff_example :
    (removal_leaves_no_admin (leader ∷ []) [] (carrier ∷ []) [] 12 ≡ true) ↔ (
      (d : Date) × (12 ≤ d)
      × (tenant_has_admin (carrier ∷ []) [] d ≡ true)
      × (tenant_has_admin (leader ∷ []) [] d ≡ false))
removal_leaves_no_admin_iff_example =
    removal_leaves_no_admin_iff (leader ∷ []) [] (carrier ∷ []) [] 12
      (unfold admin_periods in (omega arith, tt))

removal_gap : removal_leaves_no_admin (leader ∷ []) [] (carrier ∷ []) [] 12 ≡ true
unfolding removal_leaves_no_admin tenant_has_admin contains has_ended_by
removal_gap = refl

abbrev kari : Email
kari = record { text = codes "kari@x.no" }

abbrev invitation : AcceptanceSnapshot
invitation = record {
  mode = normal;
  expires_at = 100;
  accepted = false;
  revoked = false;
  recipient = kari;
  acceptor = record { email = kari };
  acceptor_account_disabled = false;
  tenant_status = TenantStatus.active;
  tenant_frozen = false;
  issuer_admin_today = true;
  handover_grant_valid_today = false;
  tenant_has_admin_today = true;
  recovery_seat_matches_today = false;
}

check_acceptance_iff_example : (check_acceptance invitation 99 ≡ ok tt) ↔ IsAcceptable invitation 99
check_acceptance_iff_example = check_acceptance_iff invitation 99

check_acceptance-IsTokenRefusal_example :
    (is_dead invitation 100 ≡ true)
    ↔ ((r : AcceptanceRefusal) × (check_acceptance invitation 100 ≡ err r) × IsTokenRefusal r)
check_acceptance-IsTokenRefusal_example = check_acceptance-IsTokenRefusal invitation 100

acceptance_runs : check_acceptance invitation 99 ≡ ok tt
unfolding check_acceptance
acceptance_runs = refl

default_admin_end_example :
    (validate_admin_end even_months 720 (default_admin_end even_months 720) ≡ ok tt)
    × (add_months even_months 720 3 ≤ default_admin_end even_months 720)
default_admin_end_example = validate_admin_end-default_admin_end even_months even_months-IsCivil 720

handover_period_example :
    (p : Period) × (handover_period even_months 720 ≡ some p)
    × (p.starts_on ≡ 720)
    × (p.ends_on_exclusive ≡ handover_boundary even_months 720)
    × (720 < p.ends_on_exclusive)
handover_period_example = handover_period_lem even_months even_months-IsCivil 720 (omega arith)

from_months_example : (from_months 3 ≡ some three) ↔ (3 ≡ months three)
from_months_example = from_months_iff 3 three

normalise_message_example :
    (is_empty (trim (97 ∷ 13 ∷ 10 ∷ 98 ∷ [])) ≡ false)
    × ((97 ∷ 10 ∷ 98 ∷ []) ≡ unix_lines (trim (97 ∷ 13 ∷ 10 ∷ 98 ∷ [])))
    × (has_char cr (97 ∷ 10 ∷ 98 ∷ []) ≡ false)
    × (any (λ c. not (c == lf) && is_control c) (97 ∷ 10 ∷ 98 ∷ []) ≡ false)
    × (length {A = Date} (97 ∷ 10 ∷ 98 ∷ []) ≤ message_max_chars)
normalise_message_example =
    normalise_message_lem (97 ∷ 13 ∷ 10 ∷ 98 ∷ []) (97 ∷ 10 ∷ 98 ∷ [])
      (unfold normalise_message replace_cr replace_crlf trim is_control is_whitespace in refl)

check_request_limits_example : (check_request_limits 0 4 ≡ ok tt) ↔ ((◌≡◌ {A = Date} 0 0) × (4 < 5))
check_request_limits_example = check_request_limits_iff 0 4

abbrev inside : GroupFacts
inside = record { visibility = open_group; archived = false; viewer_in_group = true }

abbrev outside : GroupFacts
outside = record { visibility = open_group; archived = false; viewer_in_group = false }

decide_mono_example : decide Capability.admin (group_content inside) write ≡ ok tt
decide_mono_example =
    decide_mono Capability.guest Capability.admin (group_content inside) write (omega arith)
      (unfold decide in refl)

decide-hidden_example : decide Capability.guest (group outside) manage ≡ err hidden
decide-hidden_example =
    decide-hidden Capability.guest (group outside) read manage (unfold decide in refl)

decide-guest_example : InOwnGroup (group_content inside) × (write ≢ manage)
decide-guest_example = decide-guest (group_content inside) write (unfold decide in refl)

decide_guards_example :
    (decide Capability.admin (group_content outside) read ≡ ok tt)
    × ((write ≢ manage) ⊎ (Capability.admin ≡ Capability.admin))
    × ((write ≢ write) ⊎ IsWritable (group_content outside))
decide_guards_example =
    decide_guards Capability.admin (group_content outside) write (unfold decide in refl)
