-- ===== src/Directory/History/Label.antt =====
-- history.rs, `role_label`: which of the roles held is shown.
use mathlib.Core.List.Memᴰ as MemD
use fau_portalen.Prelude.{
  ◌≤◌, ◌≡◌, refl, sym, ap, ◌∙◌, none, some, Bool, ltb, true, false, List, [], ◌∷◌, Memᴰ, arith,
  filter, any, any-false, mem-filter, filter-mem, Option-cases, Bool-cases, inl, inr,
}
use fau_portalen.Calendar.{Date, Calendar}
use fau_portalen.Membership.Vocabulary.{CapabilityClass}
use fau_portalen.Directory.History.{
  HeldRole, class_rank, min_by, less_during, less_after, held_on, ended_by, chosen_role, label_of,
  role_label,
}

-- What the comparison of keys gives: it is a strict weak order.
record IsKeyOrder {ℓ} {A : Type ℓ} (less : A → A → Bool) : Type ℓ where
  asymmetric : (a b : A) → less a b ≡ true → less b a ≡ false
  not_less_trans : (a b c : A) → less b a ≡ false → less c b ≡ false → less c a ≡ false

during-IsKeyOrder : IsKeyOrder less_during
unfolding less_during
during-IsKeyOrder = record {
  asymmetric = λ a b h. ground arith;
  not_less_trans = λ a b c h k. ground arith;
}

after-IsKeyOrder : IsKeyOrder less_after
unfolding less_after
after-IsKeyOrder = record {
  asymmetric = λ a b h. ground arith;
  not_less_trans = λ a b c h k. ground arith;
}

module _ {ℓ} {A : Type ℓ} (less : A → A → Bool) (order : IsKeyOrder less) where
  min_by-none : (xs : List A) → min_by less xs ≡ none → xs ≡ []
  unfolding min_by
  min_by-none [] h = refl
  min_by-none (x ∷ xs) h = ground arith

  -- `min_by` finds an element, and none is less.
  min_by-some :
      (xs : List A) (m : A)
      → min_by less xs ≡ some m
      → Memᴰ m xs × ((a : A) → Memᴰ a xs → less a m ≡ false)
  unfolding min_by
  min_by-some [] m h = absurd (cc)
  min_by-some (x ∷ xs) m h = elim (Option-cases (min_by less xs)) [
    | inl e ↦
        let only : m ≡ x = ground (arith, e) in
        (
          Memᴰ.head only,
          λ a k. elim (MemD.cases_cons k) [
            | inl q ↦ rw (only, q) (irreflexive x)
            | inr k' ↦ absurd (MemD.not-nil (rw (min_by-none xs e) at k'))
          ],
        )
    | inr (n, e) ↦
        let (k, least) = min_by-some xs n e in
        elim (Bool-cases (less n x)) [
          | inl t ↦
              let q : m ≡ n = ground (arith, e) in
              (
                rw q (Memᴰ.tail k),
                λ a k'. rw q (elim (MemD.cases_cons k') [
                  | inl p ↦ rw p (order.asymmetric n x t)
                  | inr k'' ↦ least a k''
                ]),
              )
          | inr t ↦
              let q : m ≡ x = ground (arith, e) in
              (
                Memᴰ.head q,
                λ a k'. rw q (elim (MemD.cases_cons k') [
                  | inl p ↦ rw p (irreflexive x)
                  | inr k'' ↦ order.not_less_trans x n a t (least a k'')
                ]),
              )
        ]
  ]
    where
      irreflexive : (a : A) → less a a ≡ false
      irreflexive a = elim (Bool-cases (less a a)) [ inl t ↦ order.asymmetric a a t | inr f ↦ f ]

some_of_mem :
    (less : HeldRole → HeldRole → Bool) (test : HeldRole → Bool) (held : List HeldRole)
    (r : HeldRole)
    → IsKeyOrder less
    → Memᴰ r held
    → test r ≡ true
    → (c : HeldRole) × (min_by less (filter test held) ≡ some c)
      × Memᴰ c held
      × (test c ≡ true)
      × (less r c ≡ false)
some_of_mem less test held r order m t = elim (Option-cases (min_by less (filter test held))) [
  | inl e ↦
      absurd
        (MemD.not-nil (rw (min_by-none less order (filter test held) e) at (mem-filter test m t)))
  | inr (c, e) ↦
      let (k, least) = min_by-some less order (filter test held) c e in
      let (k', u) = filter-mem test c held k in (c, e, k', u, least r (mem-filter test m t))
]

-- Admin is above member, and both are above guest.
abbrev pub is_above : CapabilityClass → CapabilityClass → Bool
is_above CapabilityClass.admin CapabilityClass.admin = false
is_above CapabilityClass.admin CapabilityClass.member = true
is_above CapabilityClass.admin CapabilityClass.guest = true
is_above CapabilityClass.member CapabilityClass.guest = true
is_above CapabilityClass.member _ = false
is_above CapabilityClass.guest _ = false

class_rank-is_above : (a b : CapabilityClass) → ltb (class_rank a) (class_rank b) ≡ is_above a b
unfolding class_rank
class_rank-is_above CapabilityClass.admin CapabilityClass.admin = refl
class_rank-is_above CapabilityClass.admin CapabilityClass.member = refl
class_rank-is_above CapabilityClass.admin CapabilityClass.guest = refl
class_rank-is_above CapabilityClass.member CapabilityClass.admin = refl
class_rank-is_above CapabilityClass.member CapabilityClass.member = refl
class_rank-is_above CapabilityClass.member CapabilityClass.guest = refl
class_rank-is_above CapabilityClass.guest CapabilityClass.admin = refl
class_rank-is_above CapabilityClass.guest CapabilityClass.member = refl
class_rank-is_above CapabilityClass.guest CapabilityClass.guest = refl

during_first :
    (r c : HeldRole)
    → less_during r c ≡ false
    → (is_above r.class c.class ≡ false) × (r.class ≡ c.class → c.from ≤ r.from)
unfolding less_during
during_first r c h = (
  sym (class_rank-is_above r.class c.class) ∙ ground arith,
  λ e. let e' = ap class_rank e in ground (arith, e'),
)

module _ (cal : Calendar) (held : List HeldRole) (day : Date) where
  role_label-of_chosen :
      (c : HeldRole)
      → chosen_role held day ≡ some c
      → role_label cal held day ≡ some (label_of cal c)
  unfolding role_label
  role_label-of_chosen c e = rw (e, role_label) refl

  chosen_role-during :
      (c : HeldRole)
      → min_by less_during (filter (held_on day) held) ≡ some c
      → chosen_role held day ≡ some c
  unfolding chosen_role
  chosen_role-during c e = rw e refl

  chosen_role-after :
      (c : HeldRole)
      → min_by less_during (filter (held_on day) held) ≡ none
      → min_by less_after (filter (ended_by day) held) ≡ some c
      → chosen_role held day ≡ some c
  unfolding chosen_role
  chosen_role-after c n e = rw n (rw e refl)

  -- If a role was held on the day of the event, the label is that of a role held on that day; no role
  -- held that day has a higher class, where admin is above member and member above guest, and none of
  -- the same class has an earlier start.
  pub role_label-held_on :
      (r : HeldRole)
      → Memᴰ r held
      → held_on day r ≡ true
      → (c : HeldRole) × (role_label cal held day ≡ some (label_of cal c))
        × Memᴰ c held
        × (held_on day c ≡ true)
        × (is_above r.class c.class ≡ false)
        × (r.class ≡ c.class → c.from ≤ r.from)
  role_label-held_on r m t =
      let (c, e, k, u, l) = some_of_mem less_during (held_on day) held r during-IsKeyOrder m t in
      let (a, b) = during_first r c l in
      (c, role_label-of_chosen c (chosen_role-during c e), k, u, a, b)

  during-none :
      any (held_on day) held ≡ false → min_by less_during (filter (held_on day) held) ≡ none
  during-none n = elim (Option-cases (min_by less_during (filter (held_on day) held))) [
    | inl e ↦ e
    | inr (c, e) ↦
        let (k, least) =
          min_by-some less_during during-IsKeyOrder (filter (held_on day) held) c e in
        let (k', u) = filter-mem (held_on day) c held k in
        absurd (cc (any-false (held_on day) n k', u))
  ]

  until_le : (a b : HeldRole) → less_after a b ≡ false → a.until ≤ b.until
  unfolding less_after
  until_le a b h = ground arith

  -- If no role was held on the day of the event and one had ended by then, the label is that of a role
  -- that had ended by then, and no role ended later but by then.
  pub role_label-ended_by :
      any (held_on day) held ≡ false
      → (r : HeldRole) → Memᴰ r held
      → ended_by day r ≡ true
      → (c : HeldRole) × (role_label cal held day ≡ some (label_of cal c))
        × Memᴰ c held
        × (ended_by day c ≡ true)
        × (r.until ≤ c.until)
  role_label-ended_by n r m t =
      let (c, e, k, u, l) = some_of_mem less_after (ended_by day) held r after-IsKeyOrder m t in
      (c, role_label-of_chosen c (chosen_role-after c (during-none n) e), k, u, until_le r c l)
