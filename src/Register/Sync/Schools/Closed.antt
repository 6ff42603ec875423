-- ===== src/Register/Sync/Schools/Closed.antt =====
-- schools.rs: what is known of a school that a plan closes.
use mathlib.Core.List.{flat_map, map-append}
use fau_portalen.Prelude.{
  ◌≡◌, refl, Option, none, some, true, false, List, [], ◌∷◌, Memᴰ, map, any, All, All-append, arith,
  ◌==◌, Bool-cases, inl, inr, ◌⊎◌,
}
use fau_portalen.Text.{Text}
use fau_portalen.Register.Source.{NsrUnit}
use fau_portalen.Register.Sync.Types
use fau_portalen.Register.Sync.Municipalities.State.{RowId, MunicipalityState}
use fau_portalen.Register.Sync.Schools.Data.{Host, School, SchoolPlan}
use fau_portalen.Register.Sync.Schools.Book.{is_closed}
use fau_portalen.Register.Sync.Schools.Classify.{has_orgnr, school_of, is_listed_or_verified}
use fau_portalen.Register.Sync.Schools.Plan.{plan_schools}
use fau_portalen.Register.Sync.Schools.Sorted.{may_close, closed_by, closes}
use fau_portalen.Register.Sync.Schools.Planned.{closed_ids, school_id, plan_schools_lem}

school_of-found :
    (orgnr : Text) (found : Option School) (ss : List School) (s : School)
    → school_of orgnr found ss ≡ some s
    → (found ≡ some s) ⊎ Memᴰ s ss
unfolding school_of
school_of-found orgnr found [] s h = inl h
school_of-found orgnr found (t ∷ ts) s h = elim (Bool-cases (has_orgnr orgnr t.orgnr)) [
  | inl e ↦ elim (school_of-found orgnr (some t) ts s (rw e at h)) [
    | inl q ↦ inr (Memᴰ.head (cc))
    | inr m ↦ inr (Memᴰ.tail m)
  ]
  | inr e ↦ elim (school_of-found orgnr found ts s (rw e at h)) [
    | inl q ↦ inl q
    | inr m ↦ inr (Memᴰ.tail m)
  ]
]

-- A school of the snapshot with the id that is active, listed or verified, without a live FAU, and in a
-- municipality that no unexplained change touches.
pub record IsClosable (snapshot : Types.RegisterSnapshot RowId) (state : MunicipalityState)
    (id : RowId) : Type 0 where
  pub school : School
  pub known : Memᴰ school snapshot.schools
  pub same : school.id ≡ id
  pub active : is_closed school.status ≡ false
  pub followed : is_listed_or_verified school.verification ≡ true
  pub explained : any (λ i. i == school.municipality_id) state.blocked_ids ≡ false
  pub no_fau : school.has_live_fau ≡ false

module _ (snapshot : Types.RegisterSnapshot RowId) (state : MunicipalityState) where
  may_close-IsClosable :
      (unit : NsrUnit) (s : School)
      → Memᴰ s snapshot.schools
      → may_close snapshot state unit s ≡ true
      → IsClosable snapshot state s.id
  may_close-IsClosable unit s m h = record {
    school = s;
    known = m;
    same = refl;
    active = ground (arith, h);
    followed = ground (arith, h);
    explained = ground (arith, h);
    no_fau = ground (arith, h);
  }

  closed_by-IsClosable :
      (unit : NsrUnit) (o : Option School)
      → ((s : School) → o ≡ some s → Memᴰ s snapshot.schools)
      → All (IsClosable snapshot state) (map school_id (closed_by snapshot state unit o))
  closed_by-IsClosable unit none m = _
  closed_by-IsClosable unit (some s) m = elim (Bool-cases (may_close snapshot state unit s)) [
    | inl e ↦ rw e (may_close-IsClosable unit s (m s refl) e, _)
    | inr e ↦ rw e _
  ]

  unit-IsClosable :
      (unit : NsrUnit)
      → All (IsClosable snapshot state) (map school_id (closes snapshot state unit))
  unfolding closes
  unit-IsClosable unit =
      closed_by-IsClosable unit (school_of unit.orgnr none snapshot.schools) (λ s e.
        elim (school_of-found unit.orgnr none snapshot.schools s e) [
          | inl q ↦ absurd (cc)
          | inr m ↦ m
        ])

  units-IsClosable :
      (units : List NsrUnit)
      → All (IsClosable snapshot state) (map school_id (flat_map (closes snapshot state) units))
  unfolding flat_map
  units-IsClosable [] = _
  units-IsClosable (unit ∷ units) =
      rw
        (map-append school_id (closes snapshot state unit) (flat_map (closes snapshot state) units))
        (All-append (IsClosable snapshot state) (map school_id (closes snapshot state unit)) _
          (unit-IsClosable unit) (units-IsClosable units))

  -- Every school that a plan closes is an active school of the snapshot that is listed or verified, has
  -- no live FAU, and stands in no municipality of an unexplained change.
  pub plan_schools-IsClosable :
      (host : Host) (inputs : Types.SyncInputs) (plan : SchoolPlan)
      → plan_schools host snapshot inputs state ≡ some plan
      → All (IsClosable snapshot state) (closed_ids plan.ops)
  plan_schools-IsClosable host inputs plan h =
      let (a, b) = plan_schools_lem host snapshot inputs state plan h in
      rw a (units-IsClosable inputs.units)
