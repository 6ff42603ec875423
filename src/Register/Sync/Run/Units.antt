-- ===== src/Register/Sync/Run/Units.antt =====
-- sync/mod.rs: the units of a run, in the order of their numbers.
use mathlib.Core.List.Memᴰ as MemD
use fau_portalen.Prelude.{
  suc, ◌≤◌, Ordering, is_gt, insert_by, sort_by, sort_by-mem, mem-sort_by, length-sort_by, ◌≡◌, inl,
  inr, refl, sym, ap, ◌∙◌, true, false, List, [], ◌∷◌, Memᴰ, All, arith, length, Bool-cases,
  either_way,
}
use fau_portalen.Text.{Text, text_eq, text_eq_iff, text_cmp_trans, text_cmp_flip, text_cmp-IsKeyed}
use fau_portalen.Register.Source.{NsrUnit}
use fau_portalen.Register.Sync.Run.{compare_units, dedup_after, dedup, normalised}

-- A list whose numbers ascend: each is below all that follow.
unfoldable pub IsAscending : List NsrUnit → Type 0
IsAscending [] = Unit
IsAscending (u ∷ us) = All (λ v. compare_units u v ≡ Ordering.lt) us × IsAscending us

-- A list whose numbers do not descend, after a unit.
unfoldable FollowsOn : NsrUnit → List NsrUnit → Type 0
FollowsOn u [] = Unit
FollowsOn u (v ∷ vs) = (is_gt (compare_units u v) ≡ false) × FollowsOn v vs

unfoldable IsSorted : List NsrUnit → Type 0
IsSorted [] = Unit
IsSorted (u ∷ us) = FollowsOn u us

is_gt-≡ : (o : Ordering) → is_gt o ≡ true → o ≡ Ordering.gt
is_gt-≡ Ordering.gt h = refl
is_gt-≡ Ordering.lt h = absurd (cc)
is_gt-≡ Ordering.eq h = absurd (cc)

flipped : (u v : NsrUnit) → is_gt (compare_units u v) ≡ true → is_gt (compare_units v u) ≡ false
unfolding compare_units
flipped u v h = rw (text_cmp_flip u.orgnr v.orgnr (is_gt-≡ _ h)) refl

insert_by-FollowsOn :
    (w u : NsrUnit) (us : List NsrUnit)
    → is_gt (compare_units w u) ≡ false
    → FollowsOn w us
    → FollowsOn w (insert_by compare_units u us)
unfolding insert_by FollowsOn
insert_by-FollowsOn w u [] h k = (h, _)
insert_by-FollowsOn w u (v ∷ vs) h k = elim (Bool-cases (is_gt (compare_units u v))) [
  | inr e ↦ rw e (h, (e, k.1))
  | inl e ↦ rw e (k.0, insert_by-FollowsOn v u vs (flipped u v e) k.1)
]

insert_by-IsSorted :
    (u : NsrUnit) (us : List NsrUnit) → IsSorted us → IsSorted (insert_by compare_units u us)
unfolding insert_by IsSorted FollowsOn
insert_by-IsSorted u [] h = _
insert_by-IsSorted u (v ∷ vs) h = elim (Bool-cases (is_gt (compare_units u v))) [
  | inr e ↦ rw e (e, h)
  | inl e ↦ rw e (insert_by-FollowsOn v u vs (flipped u v e) h)
]

sort_by-IsSorted : (us : List NsrUnit) → IsSorted (sort_by compare_units us)
unfolding sort_by IsSorted
sort_by-IsSorted [] = _
sort_by-IsSorted (u ∷ us) = insert_by-IsSorted u (sort_by compare_units us) (sort_by-IsSorted us)

-- The comparison reads the numbers alone.
same_orgnr-FollowsOn :
    (u v : NsrUnit) (us : List NsrUnit) → u.orgnr ≡ v.orgnr → FollowsOn u us → FollowsOn v us
unfolding FollowsOn compare_units
same_orgnr-FollowsOn u v [] e h = _
same_orgnr-FollowsOn u v (w ∷ ws) e h = (rw (← e) h.0, h.1)

below : (o : Ordering) → is_gt o ≡ false → ¬ (o ≡ Ordering.eq) → o ≡ Ordering.lt
below Ordering.lt h n = refl
below Ordering.eq h n = absurd (n refl)
below Ordering.gt h n = absurd (cc)

different : (u v : NsrUnit) → text_eq v.orgnr u.orgnr ≡ false → ¬ (compare_units u v ≡ Ordering.eq)
unfolding compare_units
different u v h e =
    let q = text_cmp-IsKeyed.same u.orgnr v.orgnr e in
    let t = (text_eq_iff v.orgnr u.orgnr).1 (sym q) in absurd (cc)

below-All :
    (u v : NsrUnit) (us : List NsrUnit)
    → compare_units u v ≡ Ordering.lt
    → All (λ w. compare_units v w ≡ Ordering.lt) us
    → All (λ w. compare_units u w ≡ Ordering.lt) us
unfolding compare_units
below-All u v [] h k = _
below-All u v (w ∷ ws) h k = (text_cmp_trans u.orgnr v.orgnr w.orgnr h k.0, below-All u v ws h k.1)

abbrev Ascends : NsrUnit → List NsrUnit → Type 0
Ascends last us = All (λ v. compare_units last v ≡ Ordering.lt) us × IsAscending us

dedup_after-Ascends :
    (last : NsrUnit) (us : List NsrUnit) → FollowsOn last us → Ascends last (dedup_after last us)
unfolding dedup_after FollowsOn IsAscending
dedup_after-Ascends last [] h = (_, _)
dedup_after-Ascends last (u ∷ us) h =
    either_way (Ascends last) (text_eq u.orgnr last.orgnr)
      (λ t.
        dedup_after-Ascends last us
          (same_orgnr-FollowsOn u last us ((text_eq_iff u.orgnr last.orgnr).0 t) h.1))
      (λ t.
        let lt = below (compare_units last u) h.0 (different last u t) in
        let (a, b) = dedup_after-Ascends u us h.1 in
        ((lt, below-All last u (dedup_after u us) lt a), (a, b)))

dedup-IsAscending : (us : List NsrUnit) → IsSorted us → IsAscending (dedup us)
unfolding dedup IsSorted IsAscending
dedup-IsAscending [] h = _
dedup-IsAscending (u ∷ us) h = dedup_after-Ascends u us h

pub normalised-IsAscending : (us : List NsrUnit) → IsAscending (normalised us)
unfolding normalised
normalised-IsAscending us = dedup-IsAscending (sort_by compare_units us) (sort_by-IsSorted us)

-- What is kept was given, and of what was given a unit with its number is kept.
dedup_after-mem :
    (last : NsrUnit) (us : List NsrUnit) (v : NsrUnit) → Memᴰ v (dedup_after last us) → Memᴰ v us
unfolding dedup_after
dedup_after-mem last [] v = λ m. m
dedup_after-mem last (u ∷ us) v =
    either_way (λ (l : List NsrUnit). Memᴰ v l → Memᴰ v (u ∷ us)) (text_eq u.orgnr last.orgnr)
      (λ t m. Memᴰ.tail (dedup_after-mem last us v m))
      (λ t m. elim (MemD.cases_cons m) [
        | inl e ↦ Memᴰ.head e
        | inr m' ↦ Memᴰ.tail (dedup_after-mem u us v m')
      ])

dedup-mem : (us : List NsrUnit) (v : NsrUnit) → Memᴰ v (dedup us) → Memᴰ v us
unfolding dedup
dedup-mem [] v m = m
dedup-mem (u ∷ us) v m = elim (MemD.cases_cons m) [
  | inl e ↦ Memᴰ.head e
  | inr m' ↦ Memᴰ.tail (dedup_after-mem u us v m')
]

pub normalised-mem : (us : List NsrUnit) (v : NsrUnit) → Memᴰ v (normalised us) → Memᴰ v us
unfolding normalised
normalised-mem us v m = sort_by-mem compare_units v us (dedup-mem (sort_by compare_units us) v m)

abbrev pub HasNumber : Text → List NsrUnit → Type 0
HasNumber n us = (w : NsrUnit) × Memᴰ w us × (w.orgnr ≡ n)

kept_after :
    (last : NsrUnit) (us : List NsrUnit) (v : NsrUnit)
    → Memᴰ v us
    → HasNumber v.orgnr (last ∷ dedup_after last us)
unfolding dedup_after
kept_after last [] v m = absurd (MemD.not-nil m)
kept_after last (u ∷ us) v m =
    either_way (λ (l : List NsrUnit). HasNumber v.orgnr (last ∷ l)) (text_eq u.orgnr last.orgnr)
      (λ t. elim (MemD.cases_cons m) [
        | inl e ↦ (
          last,
          Memᴰ.head refl,
          sym ((text_eq_iff u.orgnr last.orgnr).0 t) ∙ ap (λ (w : NsrUnit). w.orgnr) (sym e),
        )
        | inr m' ↦ kept_after last us v m'
      ])
      (λ t. elim (MemD.cases_cons m) [
        | inl e ↦ (u, Memᴰ.tail (Memᴰ.head refl), ap (λ (w : NsrUnit). w.orgnr) (sym e))
        | inr m' ↦ let (w, k, e) = kept_after u us v m' in (w, Memᴰ.tail k, e)
      ])

mem-dedup : (us : List NsrUnit) (v : NsrUnit) → Memᴰ v us → HasNumber v.orgnr (dedup us)
unfolding dedup
mem-dedup [] v m = absurd (MemD.not-nil m)
mem-dedup (u ∷ us) v m = elim (MemD.cases_cons m) [
  | inl e ↦ (u, Memᴰ.head refl, ap (λ (w : NsrUnit). w.orgnr) (sym e))
  | inr m' ↦ kept_after u us v m'
]

pub mem-normalised :
    (us : List NsrUnit) (v : NsrUnit) → Memᴰ v us → HasNumber v.orgnr (normalised us)
unfolding normalised
mem-normalised us v m = mem-dedup (sort_by compare_units us) v (mem-sort_by compare_units v us m)

length-dedup_after : (last : NsrUnit) (us : List NsrUnit) → length (dedup_after last us) ≤ length us
unfolding dedup_after
length-dedup_after last [] = omega arith
length-dedup_after last (u ∷ us) =
    either_way (λ (l : List NsrUnit). length l ≤ suc (length us)) (text_eq u.orgnr last.orgnr)
      (λ t. omega (arith, length-dedup_after last us)) (λ t. omega (arith, length-dedup_after u us))

length-dedup : (us : List NsrUnit) → length (dedup us) ≤ length us
unfolding dedup
length-dedup [] = omega arith
length-dedup (u ∷ us) = omega (arith, length-dedup_after u us)

pub length-normalised : (us : List NsrUnit) → length (normalised us) ≤ length us
unfolding normalised
length-normalised us =
    omega (arith, length-dedup (sort_by compare_units us), length-sort_by compare_units us)
