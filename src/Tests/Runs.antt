-- ===== src/Tests/Runs.antt =====
-- Instances of the theorems on the planner at the run of Planner.
use fau_portalen.Prelude.{length, ◌+◌, ◌≤◌}
use fau_portalen.Text.{Text}
use fau_portalen.Register.Sync.Similarity.{trigrams, common_count, union_count}
use fau_portalen.Register.Sync.Similarity.Bounds.{union_count_bounds}
use mathlib.Core.List.Memᴰ as MemD
use fau_portalen.Prelude.{sym, ◌∙◌, Memᴰ, ◌⊎◌, ◌↔◌, inl, inr}
use fau_portalen.Register.Sync.Totals.{zero_counts}
use fau_portalen.Register.Sync.Outcome.{enforce, accept}
use fau_portalen.Register.Sync.Run.Answer.{IsPlanFor, plan-IsPlanFor}
use fau_portalen.Register.Sync.Run.Accepted.{IsFirstEmpty, empty_source_iff}
use fau_portalen.Register.Sync.Run.Order.{HaveOwnNumbers, plan_with_order}
use fau_portalen.Prelude.{
  ℕ, ◌<◌, ◌≡◌, ◌≢◌, refl, ap, none, some, true, false, List, [], ◌∷◌, map, arith,
}
use mathlib.Core.List.{flat_map}
use fau_portalen.Text.{codes, text_eq_iff}
use fau_portalen.Register.Source.{NsrUnit}
use fau_portalen.Register.Sync.Types
use fau_portalen.Register.Sync.Totals.{countable_schools}
use fau_portalen.Register.Sync.Run
use fau_portalen.Register.Sync.Run.{with_units}
use fau_portalen.Register.Sync.Municipalities.State.{MunicipalityPlan}
use fau_portalen.Register.Sync.Municipalities.Plan
use fau_portalen.Register.Sync.Municipalities.Total.{RefersTo, plan_municipalities-RefersTo}
use fau_portalen.Register.Sync.Schools.Book.{new_book, mint}
use fau_portalen.Register.Sync.Schools.Minting.{new_book-size, Mints, mint-Mints, size}
use fau_portalen.Register.Sync.Schools.Sorted.{opens, closes}
use fau_portalen.Register.Sync.Schools.Planned.{
  closed_ids, created_schools, numbered_from, school_id, plan_schools_lem,
}
use fau_portalen.Prelude.{zero, suc}
use fau_portalen.Register.Sync.Schools.Data.{Closing, Candidate}
use fau_portalen.Register.Sync.Schools.Place.{place_all}
use fau_portalen.Register.Sync.Schools.Successors.{IsLinked}
use fau_portalen.Register.Sync.Schools.Linked.{IsOpen, place_all-IsLinked}
use fau_portalen.Tests.{ascii}
use fau_portalen.Tests.Planner.{
  school, host, snapshot, inputs, sorted_inputs, state, school_plan, applied, plan_runs,
  plan_schools_runs, unit, closed_unit,
}

some_active : 0 < countable_schools snapshot
unfolding countable_schools
some_active = omega arith

plan-IsPlanFor_example : IsPlanFor host snapshot inputs applied
plan-IsPlanFor_example = plan-IsPlanFor host snapshot inputs applied refl some_active plan_runs

abbrev no_units : Types.SyncInputs
no_units = record inputs { units = [] }

empty_source_iff_example :
    (Run.plan_with host snapshot no_units accept
      ≡ some (Types.SyncOutcome.abort (Types.AbortReason.empty_source (codes "nsr")) zero_counts))
    ↔ (IsFirstEmpty no_units (codes "nsr") × (zero_counts ≡ zero_counts))
empty_source_iff_example = empty_source_iff host snapshot no_units accept (codes "nsr") zero_counts

abbrev myra : NsrUnit
myra = unit (codes "333") (codes "Myra skole")

abbrev two_units : List NsrUnit
two_units = myra ∷ closed_unit ∷ []

abbrev two_swapped : List NsrUnit
two_swapped = closed_unit ∷ myra ∷ closed_unit ∷ []

clash : false ≢ true
clash h = absurd (cc)

differ : (v w : NsrUnit) → v ≡ myra → w ≡ closed_unit → ¬ (v.orgnr ≡ w.orgnr)
differ v w e f q = clash (
    (text_eq_iff myra.orgnr closed_unit.orgnr).1
      (sym (ap (λ (x : NsrUnit). x.orgnr) e) ∙ q ∙ ap (λ (x : NsrUnit). x.orgnr) f))

one_of_two : (v : NsrUnit) → Memᴰ v two_units → (v ≡ myra) ⊎ (v ≡ closed_unit)
one_of_two v m = elim (MemD.cases_cons m) [
  | inl e ↦ inl e
  | inr m' ↦ elim (MemD.cases_cons m') [ inl e ↦ inr e | inr m'' ↦ absurd (MemD.not-nil m'') ]
]

two_own : HaveOwnNumbers two_units
two_own v w m k q = elim (one_of_two v m) [
  | inl e ↦ elim (one_of_two w k) [ inl f ↦ e ∙ sym f | inr f ↦ absurd (differ v w e f q) ]
  | inr e ↦ elim (one_of_two w k) [ inl f ↦ absurd (differ w v f e (sym q)) | inr f ↦ e ∙ sym f ]
]

two_same : (w : NsrUnit) → Memᴰ w two_units ↔ Memᴰ w two_swapped
two_same w = (
  λ m. elim (one_of_two w m) [ inl e ↦ Memᴰ.tail (Memᴰ.head e) | inr e ↦ Memᴰ.head e ],
  λ m. elim (MemD.cases_cons m) [
    | inl e ↦ Memᴰ.tail (Memᴰ.head e)
    | inr m' ↦ elim (MemD.cases_cons m') [ inl e ↦ Memᴰ.head e | inr m'' ↦ Memᴰ.tail m'' ]
  ],
)

plan_with_order_example :
    Run.plan_with host snapshot (with_units inputs two_units) enforce
    ≡ Run.plan_with host snapshot (with_units inputs two_swapped) enforce
plan_with_order_example =
    plan_with_order host snapshot inputs two_units two_swapped enforce two_own two_same

plan_schools_lem_example :
    (closed_ids school_plan.ops
      ≡ map school_id (flat_map (closes snapshot state) sorted_inputs.units))
    × (created_schools school_plan.ops
        ≡ numbered_from 0 (flat_map (opens snapshot state) sorted_inputs.units))
plan_schools_lem_example =
    plan_schools_lem host snapshot sorted_inputs state school_plan plan_schools_runs

few_slugs : size (new_book snapshot) < 1000
few_slugs = omega (arith, new_book-size snapshot)

mint-Mints_example : Mints (new_book snapshot) (Types.Ref.existing 1) (Types.Ref.new 0) (
    mint host (new_book snapshot) (Types.Ref.existing 1) (codes "eik-skole") none (Types.Ref.new 0))
mint-Mints_example =
    mint-Mints host (new_book snapshot) (Types.Ref.existing 1) (codes "eik-skole") none
      (Types.Ref.new 0) few_slugs

plan_municipalities-RefersTo_example :
    (plan : MunicipalityPlan) × (Plan.plan_municipalities ascii snapshot inputs ≡ some plan)
    × ((n : ℕ) × RefersTo snapshot.municipalities plan n)
plan_municipalities-RefersTo_example = plan_municipalities-RefersTo ascii snapshot inputs

abbrev eik_closing : Closing
eik_closing = record {
  school = school 8 (some (codes "111")) (codes "Eik skole") (some (codes "eik-skole"));
  reason = Types.ClosureReason.closed;
  closed_on = 100;
  reregistrable = true;
  successor = none;
}

abbrev new_eik : Candidate
new_eik = record {
  unit = unit (codes "222") (codes "Eik skole");
  municipality = Types.Ref.existing 1;
}

eik-IsOpen : IsOpen (eik_closing ∷ [])
eik-IsOpen zero c h = let e : eik_closing ≡ c = cc in rw (← e) refl
eik-IsOpen (suc a) c h = absurd (cc)

place_all-IsLinked_example :
    IsLinked 1 (place_all host snapshot (new_eik ∷ []) (eik_closing ∷ []) [])
place_all-IsLinked_example =
    place_all-IsLinked host snapshot (new_eik ∷ []) (eik_closing ∷ []) [] eik-IsOpen

abbrev hosle_skole : Text
hosle_skole = codes "hosle skole"

abbrev hosle_skule : Text
hosle_skule = codes "hosle skule"

union_count_bounds_example :
    let ta = trigrams hosle_skole in
    let tb = trigrams hosle_skule in
    (common_count ta tb ≤ length ta)
    × (common_count ta tb ≤ length tb)
    × (union_count ta tb + common_count ta tb ≡ length ta + length tb)
    × (common_count ta tb ≤ union_count ta tb)
union_count_bounds_example = union_count_bounds hosle_skole hosle_skule
