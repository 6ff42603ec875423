-- ===== src/Membership/Access.antt =====
-- membership/access.rs: which rights a person has in an FAU today, whether the FAU has an admin, and
-- the last-admin safeguard. The proofs stand in the modules below.
pub mod Rights
pub mod LastAdmin
use fau_portalen.Prelude.{
  ℕ, ◌≡◌, Bool, true, false, ◌&&◌, ◌||◌, not, Option, none, some, List, [], ◌∷◌, ◌++◌, map, ltb,
  max_of, min_of, if◌then◌else◌, any, filter,
}
use fau_portalen.Calendar.{Date}
use fau_portalen.Membership.Period.{Period, contains, has_ended_by}
use fau_portalen.Membership.Vocabulary.{CapabilityClass}

-- In the order of the derived `Ord`: `rank` counts it.
pub data Capability : Type 0 where
  nothing guest member admin : Capability

abbrev pub rank : Capability → ℕ
rank nothing = 0
rank guest = 1
rank member = 2
rank admin = 3

abbrev pub is_nothing : Capability → Bool
is_nothing nothing = true
is_nothing guest = false
is_nothing member = false
is_nothing admin = false

pub record AssignmentView : Type 0 where
  pub capability : CapabilityClass
  pub period : Period
  pub revoked : Bool

pub record GrantView : Type 0 where
  pub period : Period
  pub revoked : Bool

unfoldable pub assignment_valid_on : AssignmentView → Date → Bool
assignment_valid_on a day = not a.revoked && contains a.period day

unfoldable pub grant_valid_on : GrantView → Date → Bool
grant_valid_on g day = not g.revoked && contains g.period day

pub record Standing : Type 0 where
  pub tenant_active : Bool
  pub account_usable : Bool
  pub membership_active : Bool

pub record Access : Type 0 where
  pub capability : Capability
  pub handover : Bool
  pub next_start : Option Date

abbrev pub no_access : Access
no_access = record { capability = nothing; handover = false; next_start = none }

-- The `match` in the closure of `map`.
abbrev pub capability_of : CapabilityClass → Capability
capability_of CapabilityClass.guest = guest
capability_of CapabilityClass.member = member
capability_of CapabilityClass.admin = admin

-- `max().unwrap_or(Capability::None)` over the capabilities in turn.
unfoldable pub max_capability : List Capability → Capability
max_capability [] = nothing
max_capability (c ∷ cs) =
    let best = max_capability cs in if ltb (rank best) (rank c) then c else best

-- `min()` over dates.
unfoldable pub min_date : List Date → Option Date
min_date [] = none
min_date (d ∷ ds) = elim (min_date ds) [ none ↦ some d | some m ↦ some (min_of d m) ]

abbrev pub starts_later : Date → AssignmentView → Bool
starts_later today a = not a.revoked && ltb today a.period.starts_on

unfoldable pub evaluate_access : Standing → List AssignmentView → List GrantView → Date → Access
unfolding max_capability min_date
evaluate_access standing assignments grants today =
    if not (standing.tenant_active && (standing.account_usable && standing.membership_active))
    then no_access
    else let c = max_capability (
        map (λ (a : AssignmentView). capability_of a.capability)
          (filter (λ a. assignment_valid_on a today) assignments)) in
      record {
        capability = c;
        handover = any (λ g. grant_valid_on g today) grants;
        next_start =
            if is_nothing c
            then min_date (
                map (λ (a : AssignmentView). a.period.starts_on)
                  (filter (starts_later today) assignments))
            else none;
      }

abbrev pub is_admin_class : CapabilityClass → Bool
is_admin_class CapabilityClass.admin = true
is_admin_class CapabilityClass.member = false
is_admin_class CapabilityClass.guest = false

unfoldable pub tenant_has_admin : List AssignmentView → List GrantView → Date → Bool
unfolding assignment_valid_on grant_valid_on
tenant_has_admin assignments grants today =
    any (λ a. is_admin_class a.capability && assignment_valid_on a today) assignments
    || any (λ g. grant_valid_on g today) grants

-- The periods of the rows that give the FAU an admin: `admin`-class assignments that are not revoked,
-- then grants that are not revoked. The source maps the remaining ones to their ends.
unfoldable pub admin_periods : List AssignmentView → List GrantView → List Period
admin_periods assignments grants =
    map (λ (a : AssignmentView). a.period)
      (filter (λ a. not a.revoked && is_admin_class a.capability) assignments)
    ++ map (λ (g : GrantView). g.period) (filter (λ g. not g.revoked) grants)

-- One round of the `for` loop: whether this removed period opens a gap.
unfoldable pub leaves_gap : (Date → Bool) → List Date → Date → Period → Bool
leaves_gap covered remaining_ends today period =
    if has_ended_by period today
    then false
    else let first = max_of period.starts_on today in
      if not (covered first)
      then true
      else any (λ e. ltb first e && (ltb e period.ends_on_exclusive && not (covered e)))
          remaining_ends

unfoldable pub removal_leaves_no_admin :
    List AssignmentView → List GrantView → List AssignmentView → List GrantView → Date → Bool
unfolding leaves_gap admin_periods
removal_leaves_no_admin remaining_assignments remaining_grants removed_assignments removed_grants
      today =
    let covered = λ (day : Date). tenant_has_admin remaining_assignments remaining_grants day in
    let remaining_ends =
      map (λ (p : Period). p.ends_on_exclusive)
        (admin_periods remaining_assignments remaining_grants) in
    any (leaves_gap covered remaining_ends today) (admin_periods removed_assignments removed_grants)
