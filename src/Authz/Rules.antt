-- ===== src/Authz/Rules.antt =====
-- authz.rs, `decide`: what the rule promises of every viewer, resource and action.
use fau_portalen.Prelude.{◌≤◌, ◌≡◌, ◌≢◌, ◌⊎◌, inl, inr, refl, ok, err, true, false, arith}
use fau_portalen.Membership.Access.{Capability, nothing, guest, member, admin, rank}
use fau_portalen.Authz.{
  Action, read, write, manage, Target, fau, group, group_content, hidden, is_admin, can_read,
  allows, decide,
}

can_read_mono :
    (c d : Capability) (t : Target) → rank c ≤ rank d → can_read c t ≡ true → can_read d t ≡ true
unfolding can_read
can_read_mono c d fau l h = ground arith
can_read_mono c d (group g) l h = ground arith
can_read_mono c d (group_content g) l h = ground arith

allows_mono :
    (c d : Capability) (a : Action) (t : Target)
    → rank c ≤ rank d
    → allows (is_admin c) a t ≡ true
    → allows (is_admin d) a t ≡ true
unfolding allows
allows_mono c d read t l h = refl
allows_mono c d write fau l h = refl
allows_mono c d write (group g) l h = ground arith
allows_mono c d write (group_content g) l h = ground arith
allows_mono c d manage t l h = ground arith

decide_ok :
    (c : Capability) (t : Target) (a : Action)
    → decide c t a ≡ ok tt
    → (can_read c t ≡ true) × (allows (is_admin c) a t ≡ true)
unfolding decide
decide_ok nothing t a h = absurd (cc)
decide_ok guest t a h = ground arith
decide_ok member t a h = ground arith
decide_ok admin t a h = ground arith

ok_decide :
    (c : Capability) (t : Target) (a : Action)
    → can_read c t ≡ true
    → allows (is_admin c) a t ≡ true
    → decide c t a ≡ ok tt
unfolding decide
ok_decide nothing t a h k = absurd (cc)
ok_decide guest t a h k = ground arith
ok_decide member t a h k = ground arith
ok_decide admin t a h k = ground arith

-- A higher capability keeps every right of a lower one, on every resource and for every action.
pub decide_mono :
    (c d : Capability) (t : Target) (a : Action)
    → rank c ≤ rank d
    → decide c t a ≡ ok tt
    → decide d t a ≡ ok tt
decide_mono c d t a l h =
    let (r, p) = decide_ok c t a h in
    ok_decide d t a (can_read_mono c d t l r) (allows_mono c d a t l p)

hidden_unread :
    (c : Capability) (t : Target) (a : Action)
    → decide c t a ≡ err hidden
    → (can_read c t ≡ false) × (c ≢ nothing)
unfolding decide
hidden_unread nothing t a h = absurd (cc)
hidden_unread guest t a h = (ground arith, λ e. cc)
hidden_unread member t a h = (ground arith, λ e. cc)
hidden_unread admin t a h = absurd (ground arith)

unread_hidden :
    (c : Capability) (t : Target) (a : Action)
    → can_read c t ≡ false
    → c ≢ nothing
    → decide c t a ≡ err hidden
unfolding decide
unread_hidden nothing t a h n = absurd (n refl)
unread_hidden guest t a h n = ground arith
unread_hidden member t a h n = ground arith
unread_hidden admin t a h n = ground arith

-- The answer `hidden` depends on the viewer and the resource alone: a resource that is hidden for one
-- action is hidden for every action.
pub decide-hidden :
    (c : Capability) (t : Target) (a b : Action)
    → decide c t a ≡ err hidden
    → decide c t b ≡ err hidden
decide-hidden c t a b h = let (r, n) = hidden_unread c t a h in unread_hidden c t b r n

-- The resource is a group, or content of a group, that the viewer is in.
abbrev pub InOwnGroup : Target → Type 0
InOwnGroup fau = ⊥
InOwnGroup (group g) = g.viewer_in_group ≡ true
InOwnGroup (group_content g) = g.viewer_in_group ≡ true

-- A guest reaches a resource only if it is a group that the guest is in, or content of one, and there
-- never to manage it.
pub decide-guest :
    (t : Target) (a : Action) → decide guest t a ≡ ok tt → InOwnGroup t × (a ≢ manage)
unfolding decide can_read allows
decide-guest fau a h = absurd (cc)
decide-guest (group g) read h = (ground arith, λ e. cc)
decide-guest (group g) write h = absurd (ground arith)
decide-guest (group g) manage h = absurd (ground arith)
decide-guest (group_content g) read h = (ground arith, λ e. cc)
decide-guest (group_content g) write h = (ground arith, λ e. cc)
decide-guest (group_content g) manage h = absurd (ground arith)

-- The resource is not content of an archived group.
abbrev pub IsWritable : Target → Type 0
IsWritable fau = Unit
IsWritable (group g) = Unit
IsWritable (group_content g) = g.archived ≡ false

manages :
    (c : Capability) (t : Target) (a : Action)
    → allows (is_admin c) a t ≡ true
    → (a ≢ manage) ⊎ (c ≡ admin)
unfolding allows
manages c t read p = inl (λ e. cc)
manages c t write p = inl (λ e. cc)
manages c t manage p = inr (ground arith)

writes :
    (c : Capability) (t : Target) (a : Action)
    → allows (is_admin c) a t ≡ true
    → (a ≢ write) ⊎ IsWritable t
unfolding allows
writes c t read p = inl (λ e. cc)
writes c t manage p = inl (λ e. cc)
writes c fau write p = inr tt
writes c (group g) write p = inr tt
writes c (group_content g) write p = inr (ground arith)

-- What is allowed may also be read; only an admin manages; and content of an archived group is
-- written by nobody, admins included.
pub decide_guards :
    (c : Capability) (t : Target) (a : Action)
    → decide c t a ≡ ok tt
    → (decide c t read ≡ ok tt) × ((a ≢ manage) ⊎ (c ≡ admin)) × ((a ≢ write) ⊎ IsWritable t)
decide_guards c t a h =
    let (r, p) = decide_ok c t a h in
    (ok_decide c t read r (unfold allows in refl), manages c t a p, writes c t a p)
