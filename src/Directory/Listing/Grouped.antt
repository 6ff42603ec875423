-- ===== src/Directory/Listing/Grouped.antt =====
-- listing.rs, `arrange`: which groups have a section.
use Prim.Native.Nat.{Ordering}
use fau_portalen.Prelude.{
  insert_by, sort_by, is_gt, Bool-cases, inl, inr, ◌||◌, ◌==◌, ℕ, ◌≡◌, refl, sym, ap, ◌∙◌, List, [],
  ◌∷◌, map, arith,
}
use fau_portalen.Text.{Text}
use fau_portalen.Directory.Listing.{
  Section, SectionId, groups_of, arrange_section, compare_sections,
}
use fau_portalen.Directory.Listing.Kept.{has}

module _ (collate : Text → Text → Ordering) where
  -- The groups that have a section, however the sections are arranged and sorted.
  with_group : SectionId → List ℕ → List ℕ
  with_group id rest = elim id [ SectionId.fau ↦ rest | SectionId.group h ↦ h ∷ rest ]

  groups_of_at :
      (s : Section) (ss : List Section) → groups_of (s ∷ ss) ≡ with_group s.id (groups_of ss)
  unfolding with_group
  groups_of_at s ss = refl

  has-with_group :
      (i : ℕ) (id : SectionId) (rest : List ℕ)
      → has i (with_group id rest) ≡ (has i (with_group id []) || has i rest)
  unfolding with_group
  has-with_group i SectionId.fau rest = refl
  has-with_group i (SectionId.group g) rest = elim (Bool-cases (i == g)) [
    | inl e ↦ rw e refl
    | inr e ↦ rw e refl
  ]

  groups_of-∷ :
      (i : ℕ) (s : Section) (ss : List Section)
      → has i (groups_of (s ∷ ss)) ≡ (has i (groups_of (s ∷ [])) || has i (groups_of ss))
  groups_of-∷ i s ss =
      ap (has i) (groups_of_at s ss)
      ∙ (has-with_group i s.id (groups_of ss)
          ∙ ap (λ gs. has i gs || has i (groups_of ss)) (sym (groups_of_at s [])))

  groups_of-insert_by :
      (i : ℕ) (s : Section) (ss : List Section)
      → has i (groups_of (insert_by (compare_sections collate) s ss)) ≡ has i (groups_of (s ∷ ss))
  unfolding insert_by
  groups_of-insert_by i s [] = refl
  groups_of-insert_by i s (t ∷ ss) = elim (Bool-cases (is_gt (compare_sections collate s t))) [
    | inr e ↦ rw e refl
    | inl e ↦
        let ih = groups_of-insert_by i s ss in
        let a = groups_of-∷ i t (insert_by (compare_sections collate) s ss) in
        let b = groups_of-∷ i s (t ∷ ss) in
        let c = groups_of-∷ i t ss in
        let d = groups_of-∷ i s ss in rw e (a ∙ (ground (arith, ih, b, c, d)))
  ]

  pub groups_of-sort_by :
      (i : ℕ) (ss : List Section)
      → has i (groups_of (sort_by (compare_sections collate) ss)) ≡ has i (groups_of ss)
  unfolding sort_by
  groups_of-sort_by i [] = refl
  groups_of-sort_by i (s ∷ ss) =
      groups_of-insert_by i s (sort_by (compare_sections collate) ss)
      ∙ (groups_of-∷ i s (sort_by (compare_sections collate) ss)
          ∙ (ap (λ b. has i (groups_of (s ∷ [])) || b) (groups_of-sort_by i ss)
              ∙ sym (groups_of-∷ i s ss)))

  pub groups_of-arrange_section :
      (ids : List ℕ) (ss : List Section)
      → groups_of (map (arrange_section collate ids) ss) ≡ groups_of ss
  unfolding arrange_section
  groups_of-arrange_section ids [] = refl
  groups_of-arrange_section ids (s ∷ ss) =
      groups_of_at (arrange_section collate ids s) (map (arrange_section collate ids) ss)
      ∙ (ap (with_group s.id) (groups_of-arrange_section ids ss) ∙ sym (groups_of_at s ss))
