-- ===== src/Membership/Rules/AdminEnd.antt =====
-- rules.rs: the default end of an admin's term and the handover window after it.
use fau_portalen.Prelude.{◌≤◌, ◌<◌, ◌≡◌, inl, inr, ok, some, arith, Option-cases, refl}
use fau_portalen.Calendar.{Date, Calendar}
use fau_portalen.Membership.Period.{Period, new_period}
use fau_portalen.Membership.Rules.{
  add_months, default_admin_end, validate_admin_end, handover_period, handover_boundary, IsCivil,
}

module _ (cal : Calendar) (civil : IsCivil cal) where
  -- The default lies between three and fifteen months after today.
  default_bounds :
      (today : Date)
      → (add_months cal today 3 ≤ default_admin_end cal today)
        × (default_admin_end cal today ≤ add_months cal today 15)
  default_bounds today =
      let e : Date = add_months cal today 3 in
      elim (civil.october e (civil.bounded today 3)) [
        | inl (a, b) ↦
            unfold default_admin_end in
            ground (arith, civil.steps today 3 9, civil.mono today 12 15)
        | inr (a, b, c) ↦ unfold default_admin_end in ground (arith, civil.steps today 3 12)
      ]

  -- The end date that the signup form offers is one that `validate_admin_end` accepts; it lies at
  -- least three months after today.
  pub validate_admin_end-default_admin_end :
      (today : Date)
      → (validate_admin_end cal today (default_admin_end cal today) ≡ ok tt)
        × (add_months cal today 3 ≤ default_admin_end cal today)
  validate_admin_end-default_admin_end today =
      let (l, u) = default_bounds today in
      (
        unfold validate_admin_end in
            ground (arith, l, u, civil.mono today 1 3, civil.mono today 15 24),
        l,
      )

  boundary_later :
      (admin_ends : Date)
      → admin_ends < cal.max_date
      → admin_ends < handover_boundary cal admin_ends
  unfolding handover_boundary
  boundary_later admin_ends h = elim (Option-cases (cal.checked_add_months admin_ends 6)) [
    | inl e ↦ ground (arith, e)
    | inr (d, e) ↦ ground (arith, e, civil.forward admin_ends d 6)
  ]

  -- An admin role that ends before the calendar's last day is followed by a handover window: it starts
  -- where the role ends, ends at the boundary, and is not empty.
  pub handover_period_lem :
      (admin_ends : Date)
      → admin_ends < cal.max_date
      → (p : Period) × (handover_period cal admin_ends ≡ some p)
        × (p.starts_on ≡ admin_ends)
        × (p.ends_on_exclusive ≡ handover_boundary cal admin_ends)
        × (admin_ends < p.ends_on_exclusive)
  handover_period_lem admin_ends h =
      let later = boundary_later admin_ends h in
      (
        record { starts_on = admin_ends; ends_on_exclusive = handover_boundary cal admin_ends },
        (unfold handover_period new_period in ground (arith, later)),
        refl,
        refl,
        later,
      )
