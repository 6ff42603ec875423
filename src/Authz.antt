-- ===== src/Authz.antt =====
-- authz.rs: the one rule that decides what a viewer may do with a resource.
pub mod Rules
use fau_portalen.Prelude.{
  ◌≤◌, ◌≡◌, ◌↔◌, ◌⊎◌, Result, ok, err, Bool, true, false, ◌&&◌, ◌||◌, not, arith, if◌then◌else◌,
}
use fau_portalen.Membership.Vocabulary.{Visibility, open_group, closed_group}
use fau_portalen.Membership.Access.{Capability, nothing, guest, member, admin, rank}

pub data Action : Type 0 where
  read write manage : Action

pub record GroupFacts : Type 0 where
  pub visibility : Visibility
  pub archived : Bool
  pub viewer_in_group : Bool

pub data Target : Type 0 where
  fau : Target
  group : GroupFacts → Target
  group_content : GroupFacts → Target

pub data Denied : Type 0 where
  no_access hidden forbidden : Denied

abbrev pub Decision : Type 0
Decision = Result Denied (Unit {0})

abbrev pub is_open : Visibility → Bool
is_open open_group = true
is_open closed_group = false

abbrev pub is_admin : Capability → Bool
is_admin admin = true
is_admin nothing = false
is_admin guest = false
is_admin member = false

-- The first `match`; its arm for `Capability::None` returns, and is in `decide`.
unfoldable pub can_read : Capability → Target → Bool
can_read admin _ = true
can_read member fau = true
can_read guest fau = false
can_read member (group g) = is_open g.visibility || g.viewer_in_group
can_read member (group_content g) = is_open g.visibility || g.viewer_in_group
can_read guest (group g) = g.viewer_in_group
can_read guest (group_content g) = g.viewer_in_group
can_read nothing _ = false

-- The second `match`, on the action and the target.
unfoldable pub allows : Bool → Action → Target → Bool
allows is_adm read _ = true
allows is_adm manage _ = is_adm
allows is_adm write (group g) = is_adm
allows is_adm write fau = true
allows is_adm write (group_content g) = not g.archived && (is_adm || g.viewer_in_group)

decide_some : Capability → Target → Action → Decision
decide_some c t a =
    if not (can_read c t)
    then err hidden
    else if allows (is_admin c) a t
    then ok tt
    else err forbidden

unfoldable pub decide : Capability → Target → Action → Decision
unfolding can_read allows decide_some
decide nothing t a = err no_access
decide guest t a = decide_some guest t a
decide member t a = decide_some member t a
decide admin t a = decide_some admin t a
