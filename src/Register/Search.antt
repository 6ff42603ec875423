-- ===== src/Register/Search.antt =====
-- register/search.rs: the forms of a name that a search matches.
use mathlib.Core.List.Memᴰ as MemD
use mathlib.Core.List.{append-nil, append_assoc}
use fau_portalen.Prelude.{
  ℕ, ◌≡◌, ◌⊎◌, refl, sym, ap, ◌∙◌, Bool, true, false, ◌&&◌, not, List, [], ◌∷◌, ◌++◌, Memᴰ,
  if◌then◌else◌, filter, any, mem-any, is_empty, Bool-cases, inl, inr,
}
use fau_portalen.Text.{Text, Unicode, on_first, join, text_eq, text_eq_iff}
use fau_portalen.Register.Fold.{Letters, latin_fold, collapse}

-- `split` at every character that passes a test.
unfoldable pub split_where : (ℕ → Bool) → Text → List Text
split_where test [] = [] ∷ []
split_where test (c ∷ s) =
    let rest = split_where test s in if test c then [] ∷ rest else on_first c rest

abbrev pub space : ℕ
space = b' '

-- `forms.contains(&form)`
abbrev pub has_form : Text → List Text → Bool
has_form form forms = any (text_eq form) forms

-- One round of the inner loop over the candidates.
unfoldable pub push_form : List Text → Text → List Text
push_form forms form =
    if not (is_empty form) && not (has_form form forms) then forms ++ (form ∷ []) else forms

module _ (u : Unicode) where
  unfoldable pub folded : Text → Text
  folded name = join (space ∷ []) (
      filter (λ w. not (is_empty w))
        (split_where (λ c. not (u.is_alphanumeric c)) (u.to_lowercase (u.nfc name))))

  unfoldable pub search_query : Text → Text
  search_query q = collapse (latin_fold u q Letters.lossy) space

  -- The three candidates of a name, pushed in their order.
  unfoldable pub push_name : List Text → Text → List Text
  push_name forms name =
      push_form
        (push_form (push_form forms (folded name))
          (collapse (latin_fold u name Letters.transliterate) space))
        (collapse (latin_fold u name Letters.lossy) space)

  unfoldable pub forms_from : List Text → List Text → List Text
  forms_from forms [] = forms
  forms_from forms (name ∷ names) = forms_from (push_name forms name) names

  unfoldable pub search_text : List Text → Text
  search_text names = join (space ∷ []) (forms_from [] names)

push_form-mem : (forms : List Text) (form f : Text) → Memᴰ f forms → Memᴰ f (push_form forms form)
unfolding push_form
push_form-mem forms form f m =
    elim (Bool-cases (not (is_empty form) && not (has_form form forms))) [
      | inl e ↦ rw e (append_mem forms m)
      | inr e ↦ rw e m
    ]
  where
    append_mem : (xs : List Text) → Memᴰ f xs → Memᴰ f (xs ++ (form ∷ []))
    append_mem [] k = absurd (MemD.not-nil k)
    append_mem (x ∷ xs) k = elim (MemD.cases_cons k) [
      | inl e ↦ Memᴰ.head e
      | inr k' ↦ Memᴰ.tail (append_mem xs k')
    ]

push_form_pushed :
    (forms : List Text) (form : Text) → is_empty form ≡ false → Memᴰ form (push_form forms form)
unfolding push_form
push_form_pushed forms form n = elim (Bool-cases (has_form form forms)) [
  | inl e ↦
      let (f, m, t) = mem-any (text_eq form) forms e in
      rw n (rw e (rw ((text_eq_iff form f).0 t) m))
  | inr e ↦ rw n (rw e (last forms))
]
  where
    last : (xs : List Text) → Memᴰ form (xs ++ (form ∷ []))
    last [] = Memᴰ.head refl
    last (x ∷ xs) = Memᴰ.tail (last xs)

joined_cons :
    (sep : ℕ) (v x : Text) (ws : List Text)
    → sep ∷ join (sep ∷ []) (v ∷ x ∷ ws) ≡ sep ∷ (v ++ (sep ∷ join (sep ∷ []) (x ∷ ws)))
unfolding join
joined_cons sep v x ws = refl

-- A member of a list stands in the joined list, between separators.
join-mem :
    (sep : ℕ) (ws : List Text) (w : Text)
    → Memᴰ w ws
    → (before : Text) × (after : Text) × (sep ∷ join (sep ∷ []) ws ≡ before ++ (sep ∷ (w ++ after)))
join-mem sep [] w m = absurd (MemD.not-nil m)
join-mem sep (v ∷ []) w m = elim (MemD.cases_cons m) [
  | inl e ↦ ([], [], unfold join in rw (append-nil w) (ap (λ r. sep ∷ r) (sym e)))
  | inr m' ↦ absurd (MemD.not-nil m')
]
join-mem sep (v ∷ x ∷ ws) w m = elim (MemD.cases_cons m) [
  | inl e ↦ ([], sep ∷ join (sep ∷ []) (x ∷ ws), unfold join in rw e refl)
  | inr m' ↦
      let (b, a, q) = join-mem sep (x ∷ ws) w m' in
      (
        sep ∷ (v ++ b),
        a,
        joined_cons sep v x ws
            ∙ ap (λ r. sep ∷ (v ++ r)) q
            ∙ ap (λ r. sep ∷ r) (sym (append_assoc v b (sep ∷ (w ++ a)))),
      )
]

module _ (u : Unicode) where
  forms_from-mem :
      (forms names : List Text) (f : Text) → Memᴰ f forms → Memᴰ f (forms_from u forms names)
  unfolding forms_from push_name
  forms_from-mem forms [] f m = m
  forms_from-mem forms (name ∷ names) f m = forms_from-mem (push_name u forms name) names f (
      push_form-mem _ (collapse (latin_fold u name Letters.lossy) space) f (
        push_form-mem _ (collapse (latin_fold u name Letters.transliterate) space) f
          (push_form-mem forms (folded u name) f m)))

  query_form :
      (forms names : List Text) (name : Text)
      → Memᴰ name names
      → is_empty (search_query u name) ≡ false
      → Memᴰ (search_query u name) (forms_from u forms names)
  unfolding forms_from push_name search_query
  query_form forms [] name m n = absurd (MemD.not-nil m)
  query_form forms (x ∷ names) name m n = elim (MemD.cases_cons m) [
    | inl e ↦
        forms_from-mem (push_name u forms x) names (search_query u name)
          (rw e (push_form_pushed _ _ (rw e at n)))
    | inr m' ↦ query_form (push_name u forms x) names name m' n
  ]

  -- Who searches for a whole name of a row finds it: the query is empty, or it stands in the row's
  -- search text, at the text's start or behind a space.
  pub search_text-search_query :
      (names : List Text) (name : Text)
      → Memᴰ name names
      → (search_query u name ≡ [])
        ⊎ ((before : Text) × (after : Text) × (space ∷ search_text u names
              ≡ before ++ (space ∷ (search_query u name ++ after))))
  unfolding search_text
  search_text-search_query names name m = elim (Bool-cases (is_empty (search_query u name))) [
    | inl e ↦ inl (nothing_left (search_query u name) e)
    | inr e ↦ inr (
        join-mem space (forms_from u [] names) (search_query u name) (query_form [] names name m e))
  ]
    where
      nothing_left : (s : Text) → is_empty s ≡ true → s ≡ []
      nothing_left [] h = refl
      nothing_left (c ∷ s) h = absurd (cc)
