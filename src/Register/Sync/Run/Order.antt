-- ===== src/Register/Sync/Run/Order.antt =====
-- sync/mod.rs: a plan does not depend on the order of the units.
use mathlib.Core.List.Memᴰ as MemD
use fau_portalen.Prelude.{
  Ordering, ◌≡◌, ◌↔◌, inl, inr, refl, sym, ap, ◌∙◌, none, some, List, [], ◌∷◌, Memᴰ, All-mem,
}
use fau_portalen.Text.{text_cmp_trans, text_cmp-IsKeyed}
use fau_portalen.Register.Source.{NsrUnit}
use fau_portalen.Register.Sync.Types
use fau_portalen.Register.Sync.Outcome.{Breaker, outcome}
use fau_portalen.Register.Sync.Municipalities.State.{RowId}
use fau_portalen.Register.Sync.Schools.Data.{Host}
use fau_portalen.Register.Sync.Run.{
  compare_units, normalised, planned, same_id, plan_nonempty, plan_with, empty_source, with_units,
}
use fau_portalen.Register.Sync.Run.Units.{
  IsAscending, normalised-IsAscending, normalised-mem, mem-normalised,
}

irreflexive : (u : NsrUnit) → ¬ (compare_units u u ≡ Ordering.lt)
unfolding compare_units
irreflexive u h = let e = text_cmp-IsKeyed.self u.orgnr in absurd (cc)

asymmetric : (u v : NsrUnit) → compare_units u v ≡ Ordering.lt → ¬ (compare_units v u ≡ Ordering.lt)
unfolding compare_units
asymmetric u v h k =
    let e = text_cmp-IsKeyed.self u.orgnr in
    let f = text_cmp_trans u.orgnr v.orgnr u.orgnr h k in absurd (cc)

abbrev Within : List NsrUnit → List NsrUnit → Type 0
Within us vs = (w : NsrUnit) → Memᴰ w us → Memᴰ w vs

-- Two ascending lists with the same first unit and the same units have the same rest.
rest-Within :
    (u v : NsrUnit) (us vs : List NsrUnit)
    → u ≡ v
    → IsAscending (u ∷ us)
    → Within (u ∷ us) (v ∷ vs)
    → Within us vs
unfolding IsAscending
rest-Within u v us vs e h k w m = elim (MemD.cases_cons (k w (Memᴰ.tail m))) [
  | inr m' ↦ m'
  | inl q ↦
      let l = All-mem (λ x. compare_units u x ≡ Ordering.lt) us h.0 m in
      absurd (irreflexive u (rw (q ∙ sym e) at l))
]

heads :
    (u v : NsrUnit) (us vs : List NsrUnit)
    → IsAscending (u ∷ us)
    → IsAscending (v ∷ vs)
    → Within (u ∷ us) (v ∷ vs)
    → Within (v ∷ vs) (u ∷ us)
    → u ≡ v
unfolding IsAscending
heads u v us vs h k a b = elim (MemD.cases_cons (a u (Memᴰ.head refl))) [
  | inl e ↦ e
  | inr m ↦ elim (MemD.cases_cons (b v (Memᴰ.head refl))) [
    | inl e ↦ sym e
    | inr m' ↦ absurd (
        asymmetric v u (All-mem (λ x. compare_units v x ≡ Ordering.lt) vs k.0 m)
          (All-mem (λ x. compare_units u x ≡ Ordering.lt) us h.0 m'))
  ]
]

-- Ascending lists with the same units are equal.
ascending_equal :
    (us vs : List NsrUnit) → IsAscending us → IsAscending vs → Within us vs → Within vs us → us ≡ vs
ascending_equal [] [] h k a b = refl
ascending_equal [] (v ∷ vs) h k a b = absurd (MemD.not-nil (b v (Memᴰ.head refl)))
ascending_equal (u ∷ us) [] h k a b = absurd (MemD.not-nil (a u (Memᴰ.head refl)))
ascending_equal (u ∷ us) (v ∷ vs) h k a b =
    let e = heads u v us vs h k a b in
    let rest =
      ascending_equal us vs (rest-ascends u us h) (rest-ascends v vs k)
        (rest-Within u v us vs e h a) (rest-Within v u vs us (sym e) k b) in
    cc
  where
    rest-ascends : (w : NsrUnit) (ws : List NsrUnit) → IsAscending (w ∷ ws) → IsAscending ws
    rest-ascends w ws h = unfold IsAscending in h.1

abbrev pub HaveOwnNumbers : List NsrUnit → Type 0
HaveOwnNumbers us = (v w : NsrUnit) → Memᴰ v us → Memᴰ w us → v.orgnr ≡ w.orgnr → v ≡ w

normalised-Within :
    (us vs : List NsrUnit)
    → HaveOwnNumbers vs
    → Within us vs
    → Within (normalised us) (normalised vs)
normalised-Within us vs own a w m =
    let given : Memᴰ w vs = a w (normalised-mem us w m) in
    let (x, k, e) = mem-normalised vs w given in
    let same : w ≡ x = own w x given (normalised-mem vs x k) (sym e) in rw same k

-- The units of a run, sorted and without repeats, depend on which units there are and not on their
-- order, if no two different units have one number.
normalised_order :
    (us vs : List NsrUnit)
    → HaveOwnNumbers us
    → HaveOwnNumbers vs
    → ((w : NsrUnit) → Memᴰ w us ↔ Memᴰ w vs)
    → normalised us ≡ normalised vs
normalised_order us vs p q h =
    ascending_equal (normalised us) (normalised vs) (normalised-IsAscending us)
      (normalised-IsAscending vs) (normalised-Within us vs q (λ w m. (h w).0 m))
      (normalised-Within vs us p (λ w m. (h w).1 m))

same_source :
    (inputs : Types.SyncInputs) (us vs : List NsrUnit)
    → Within us vs
    → Within vs us
    → empty_source (with_units inputs us) ≡ empty_source (with_units inputs vs)
unfolding empty_source
same_source inputs [] [] a b = refl
same_source inputs [] (v ∷ vs) a b = absurd (MemD.not-nil (b v (Memᴰ.head refl)))
same_source inputs (u ∷ us) [] a b = absurd (MemD.not-nil (a u (Memᴰ.head refl)))
same_source inputs (u ∷ us) (v ∷ vs) a b = refl

same_plan :
    (host : Host) (snapshot : Types.RegisterSnapshot RowId) (inputs : Types.SyncInputs)
    (us vs : List NsrUnit) (breaker : Breaker)
    → normalised us ≡ normalised vs
    → plan_nonempty host snapshot (with_units inputs us) breaker
      ≡ plan_nonempty host snapshot (with_units inputs vs) breaker
unfolding plan_nonempty
same_plan host snapshot inputs us vs breaker e =
    ap
      (λ units. elim (planned host snapshot (with_units inputs units)) [
        | none ↦ none
        | some p ↦ some (outcome same_id snapshot inputs.kind breaker p)
      ])
      e

-- A run's answer depends on which units the sources give and not on their order or repeats, if no two
-- different units have one number.
pub plan_with_order :
    (host : Host) (snapshot : Types.RegisterSnapshot RowId) (inputs : Types.SyncInputs)
    (us vs : List NsrUnit) (breaker : Breaker)
    → HaveOwnNumbers us
    → ((w : NsrUnit) → Memᴰ w us ↔ Memᴰ w vs)
    → plan_with host snapshot (with_units inputs us) breaker
      ≡ plan_with host snapshot (with_units inputs vs) breaker
unfolding plan_with
plan_with_order host snapshot inputs us vs breaker p h =
    let e = same_source inputs us vs (λ w m. (h w).0 m) (λ w m. (h w).1 m) in
    let f =
      same_plan host snapshot inputs us vs breaker
        (normalised_order us vs p (λ v w m k q. p v w ((h v).1 m) ((h w).1 k) q) h) in
    rw (e, f) refl
