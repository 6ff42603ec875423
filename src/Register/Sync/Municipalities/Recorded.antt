-- ===== src/Register/Sync/Municipalities/Recorded.antt =====
-- municipalities.rs: the loop over the records never panics, and stays sound.
use fau_portalen.Prelude.{
  ◌≡◌, refl, ◌∙◌, Option, none, some, Bool, true, false, List, [], ◌∷◌, if◌then◌else◌, Bool-cases,
  Result, ok, err, inl, inr,
}
use fau_portalen.Prelude.Map
use fau_portalen.Text.{Text, Unicode, text_eq, text_cmp}
use fau_portalen.Register.Slug.{SlugError, municipality_slug}
use fau_portalen.Register.Source.{MunicipalityRecord}
use fau_portalen.Register.Sync.Types
use fau_portalen.Register.Sync.Municipalities.State.{
  RowId, has_number, Working, Planning, is_manual, holder_of,
}
use fau_portalen.Register.Sync.Municipalities.Records.{
  created, plan_details, plan_known, rename_pushed, plan_unknown, plan_holder, plan_record,
  plan_records, details_differ, push_review,
}
use fau_portalen.Register.Sync.Municipalities.Sound.{
  IsSound, new_numbers, same_maps-IsSound, next_created-IsSound,
}
use fau_portalen.Register.Sync.Municipalities.Renumbered.{new_numbers-snoc}

if-IsSound :
    (rows : List (Types.MunicipalitySnapshot RowId)) (b : Bool) (p q : Planning)
    → IsSound rows p
    → IsSound rows q
    → IsSound rows (if b then p else q)
if-IsSound rows true p q h k = h
if-IsSound rows false p q h k = k

new_numbers-rename :
    (m : Types.MunicipalityRename RowId) → new_numbers (Types.MunicipalityOp.rename m ∷ []) ≡ []
unfolding new_numbers
new_numbers-rename m = refl

new_numbers-details :
    (m : Types.MunicipalityDetails RowId)
    → new_numbers (Types.MunicipalityOp.update_details m ∷ []) ≡ []
unfolding new_numbers
new_numbers-details m = refl

module _ (rows : List (Types.MunicipalitySnapshot RowId)) (p : Planning) (s : IsSound rows p) where
  pub push_review-IsSound : (item : Types.ReviewItem RowId) → IsSound rows (push_review p item)
  push_review-IsSound item = same_maps-IsSound rows p s (push_review p item) refl refl refl refl

  rename_pushed-IsSound :
      (r : MunicipalityRecord) (id : RowId) (w : Working) (slug : Result SlugError Text)
      → IsSound rows (rename_pushed p r id w slug)
  rename_pushed-IsSound r id w (ok slug) =
      same_maps-IsSound rows p s _ refl refl refl (new_numbers-snoc p.ops _ (new_numbers-rename _))
  rename_pushed-IsSound r id w (err e) = push_review-IsSound _

  plan_details-IsSound :
      (r : MunicipalityRecord) (id : RowId) (w : Working) → IsSound rows (plan_details p r id w)
  unfolding plan_details
  plan_details-IsSound r id w =
      if-IsSound rows (details_differ w.row r) _ p
        (same_maps-IsSound rows p s _ refl refl refl
          (new_numbers-snoc p.ops _ (new_numbers-details _)))
        s

  created-IsSound : (r : MunicipalityRecord) (slug : Text) → IsSound rows (created p r slug)
  unfolding created
  created-IsSound r slug = next_created-IsSound rows p s r.number _ _ refl refl refl refl refl

  plan_unknown-IsSound :
      (kind : Types.RunKind) (r : MunicipalityRecord) (slug : Result SlugError Text)
      → IsSound rows (plan_unknown kind p r slug)
  unfolding plan_unknown
  plan_unknown-IsSound Types.RunKind.seed r (ok slug) = created-IsSound r slug
  plan_unknown-IsSound Types.RunKind.seed r (err e) = push_review-IsSound _
  plan_unknown-IsSound Types.RunKind.sync r slug = push_review-IsSound _

module _ (u : Unicode) (kind : Types.RunKind) (rows : List (Types.MunicipalitySnapshot RowId)) where
  plan_known-IsSound :
      (p : Planning) (r : MunicipalityRecord) (id : RowId) (w : Working)
      → IsSound rows p
      → IsSound rows (plan_known u p r id w)
  unfolding plan_known
  plan_known-IsSound p r id w s = if-IsSound rows (is_manual w.row.source) p _ s (
      plan_details-IsSound rows _
        (if-IsSound rows (text_eq r.norwegian_name w.name) p _ s
          (rename_pushed-IsSound rows p s r id w (municipality_slug u r.number r.norwegian_name)))
        r id w)

  plan_holder-IsSound :
      (p : Planning) (r : MunicipalityRecord) (holder : Option (Types.Ref RowId))
      → Map.get text_cmp r.number p.by_number ≡ holder
      → IsSound rows p
      → (q : Planning) × (plan_holder u kind p r holder ≡ some q) × IsSound rows q
  unfolding plan_holder
  plan_holder-IsSound p r (some (Types.Ref.existing id)) h s =
      let (w, e) = s.held r.number id h in
      (plan_known u p r id w, rw (e, plan_holder) refl, plan_known-IsSound p r id w s)
  plan_holder-IsSound p r (some (Types.Ref.new k)) h s = (p, refl, s)
  plan_holder-IsSound p r none h s = (
    _,
    refl,
    plan_unknown-IsSound rows p s kind r (municipality_slug u r.number r.norwegian_name),
  )

  plan_record-IsSound :
      (p : Planning) (r : MunicipalityRecord)
      → IsSound rows p
      → (q : Planning) × (plan_record u kind p r ≡ some q) × IsSound rows q
  unfolding plan_record holder_of
  plan_record-IsSound p r s = elim (Bool-cases (has_number r.number p.blocked_numbers)) [
    | inl e ↦ (p, rw e refl, s)
    | inr e ↦
        let (q, f, t) = plan_holder-IsSound p r (Map.get text_cmp r.number p.by_number) refl s in
        (q, rw e f, t)
  ]

  plan_records_next :
      (p q : Planning) (r : MunicipalityRecord) (rs : List MunicipalityRecord)
      → plan_record u kind p r ≡ some q
      → plan_records u kind p (r ∷ rs) ≡ plan_records u kind q rs
  unfolding plan_records
  plan_records_next p q r rs e = rw (e, plan_records) refl

  pub plan_records-IsSound :
      (p : Planning) (rs : List MunicipalityRecord)
      → IsSound rows p
      → (q : Planning) × (plan_records u kind p rs ≡ some q) × IsSound rows q
  plan_records-IsSound p [] s = (p, unfold plan_records in refl, s)
  plan_records-IsSound p (r ∷ rs) s =
      let (q, e, t) = plan_record-IsSound p r s in
      let (q', f, t') = plan_records-IsSound q rs t in (q', plan_records_next p q r rs e ∙ f, t')
