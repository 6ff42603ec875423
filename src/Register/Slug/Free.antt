-- ===== src/Register/Slug/Free.antt =====
-- slug.rs, `first_free_slug`: it finds a free slug, and the result is a slug.
use fau_portalen.Prelude.{
  ℕ, zero, suc, ◌+◌, ◌-◌, ◌^◌, ◌≤◌, ◌<◌, ◌≡◌, refl, sym, ap, ◌∙◌, Option, none, some, Bool, true,
  false, List, ◌∷◌, Memᴰ, arith, ◌==◌, length, length-append, Bool-cases, Option-cases, inl, inr,
  pigeonhole, either_way, ok_of, ok, err, Result,
}
use mathlib.Core.Path.{subst}
use fau_portalen.Text.{Text, Unicode}
use fau_portalen.Register.Fold.Words.{IsWords, reads_words-append}
use fau_portalen.Register.Slug.{
  SlugError, dash, max_slug_len, make_room_for, decimal, with_suffix, first_numbered, slug_of_town,
  free_with_town, first_free_slug, slugify,
}
use fau_portalen.Register.Slug.Form.{IsSlug, cut_to_len-IsWords, length-cut_to_len, slugify-IsSlug}
use fau_portalen.Register.Slug.Decimal.{
  decimal_injective, decimal_no_dash, decimal-IsWords, length-decimal, after_dash,
}

-- Room is made for a suffix of at most 78 characters, so that the two and the hyphen are a slug.
with_suffix-IsSlug :
    (stem suffix : Text)
    → IsSlug stem
    → IsWords dash suffix
    → length suffix ≤ 78
    → IsSlug (with_suffix stem suffix)
with_suffix-IsSlug stem suffix h w l = record {
  words =
      unfold with_suffix in
      reads_words-append dash false (make_room_for stem suffix) (dash ∷ suffix) room w;
  short =
      unfold with_suffix in
      omega (arith, length-append (make_room_for stem suffix) (dash ∷ suffix), fits);
  nonempty =
      unfold with_suffix in
      omega (arith, length-append (make_room_for stem suffix) (dash ∷ suffix));
}
  where
    budget : ℕ
    budget = max_slug_len - (1 + length suffix)

    room : IsWords dash (make_room_for stem suffix)
    room =
        unfold make_room_for in ground (arith, cut_to_len-IsWords stem budget (omega arith) h.words)

    fits : length (make_room_for stem suffix) ≤ budget
    fits = unfold make_room_for in ground (arith, length-cut_to_len stem budget)

module _ (stem : Text) where
  candidate : ℕ → Text
  candidate n = with_suffix stem (decimal n)

  candidate_injective : (m n : ℕ) → candidate m ≡ candidate n → m ≡ n
  unfolding candidate with_suffix
  candidate_injective m n e = decimal_injective m n (
      after_dash (make_room_for stem (decimal m)) (make_room_for stem (decimal n)) (decimal m)
        (decimal n) (decimal_no_dash m) (decimal_no_dash n) e)

  -- A numbered slug that is found is the free candidate of one of the numbers that were tried.
  numbered_some :
      (fuel n : ℕ) (is_taken : Text → Bool) (r : Text)
      → first_numbered fuel n stem is_taken ≡ some r
      → (i : ℕ) × (i < n + fuel) × (r ≡ candidate i) × (is_taken r ≡ false)
  unfolding first_numbered candidate
  numbered_some zero n is_taken r h = absurd (cc)
  numbered_some (suc fuel) n is_taken r h = elim (Bool-cases (is_taken (candidate n))) [
    | inl t ↦
        let (i, l, e, f) = numbered_some fuel (n + 1) is_taken r (ground (arith, t)) in
        (i, omega arith, e, f)
    | inr f ↦ let e : r ≡ candidate n = ground (arith, f) in (n, omega arith, e, ap is_taken e ∙ f)
  ]

  numbered_none :
      (fuel n : ℕ) (is_taken : Text → Bool)
      → first_numbered fuel n stem is_taken ≡ none
      → (i : ℕ) → n ≤ i
      → i < n + fuel
      → is_taken (candidate i) ≡ true
  unfolding first_numbered candidate
  numbered_none zero n is_taken h i l u = absurd (omega arith)
  numbered_none (suc fuel) n is_taken h i l u = elim (Bool-cases (is_taken (candidate n))) [
    | inl t ↦ elim (Bool-cases (n == i)) [
      | inl q ↦ let e : i ≡ n = ground arith in ap (λ k. is_taken (candidate k)) e ∙ t
      | inr q ↦
          numbered_none fuel (n + 1) is_taken (ground (arith, t)) i (ground arith) (omega arith)
    ]
    | inr f ↦ absurd (ground (arith, f))
  ]

  -- With more attempts than there are taken slugs, one attempt succeeds.
  numbered_total :
      (fuel : ℕ) (is_taken : Text → Bool) (taken : List Text)
      → ((s : Text) → is_taken s ≡ true → Memᴰ s taken)
      → length taken < fuel
      → (r : Text) × (first_numbered fuel 2 stem is_taken ≡ some r)
  numbered_total fuel is_taken taken known room =
      elim (Option-cases (first_numbered fuel 2 stem is_taken)) [
        | inr p ↦ p
        | inl e ↦ absurd (
            omega (
              arith,
              pigeonhole candidate candidate_injective fuel 2 taken
                  (λ i l u. known (candidate i) (numbered_none fuel 2 is_taken e i l u)),
            ))
      ]

  -- A numbered slug that is found is a slug: ten digits are enough for the numbers tried.
  numbered-IsSlug :
      (fuel : ℕ) (is_taken : Text → Bool) (r : Text)
      → IsSlug stem
      → 2 + fuel ≤ 10 ^ 10
      → first_numbered fuel 2 stem is_taken ≡ some r
      → IsSlug r
  unfolding candidate
  numbered-IsSlug fuel is_taken r h b e =
      let (i, l, q, f) = numbered_some fuel 2 is_taken r e in
      subst IsSlug (sym q) (
        with_suffix-IsSlug stem (decimal i) h (decimal-IsWords i)
          (omega (arith, length-decimal i (omega arith))))

-- A free slug that was found.
abbrev pub Found : (Text → Bool) → Option Text → Type 0
Found is_taken o = (r : Text) × (o ≡ some r) × (is_taken r ≡ false) × IsSlug r

abbrev pub TownSlugFits : Result SlugError Text → Type 0
TownSlugFits (ok slug) = length slug ≤ 78
TownSlugFits (err e) = Unit

-- What `first_free_slug` asks of the post town: its slug, if it has one, leaves room for a hyphen and
-- for at least one character of the school's slug.
abbrev pub TownFits : Unicode → Option Text → Type 0
TownFits u none = Unit
TownFits u (some town) = TownSlugFits (slugify u town)

abbrev OptionFits : Option Text → Type 0
OptionFits none = Unit
OptionFits (some town) = IsSlug town × (length town ≤ 78)

result_fits :
    (r : Result SlugError Text)
    → ((s : Text) → r ≡ ok s → IsSlug s)
    → TownSlugFits r
    → OptionFits (ok_of r)
result_fits (ok s) slug h = (slug s refl, h)
result_fits (err e) slug h = tt

town_fits :
    (u : Unicode) (post_town : Option Text)
    → TownFits u post_town
    → OptionFits (slug_of_town u post_town)
town_fits u none h = tt
town_fits u (some town) h = result_fits (slugify u town) (slugify-IsSlug u town) h

module _ (fuel : ℕ) (is_taken : Text → Bool) (taken : List Text)
    (known : (s : Text) → is_taken s ≡ true → Memᴰ s taken) (room : length taken < fuel)
    (bound : 2 + fuel ≤ 10 ^ 10) where
  numbered-Found :
      (stem : Text) → IsSlug stem → Found is_taken (first_numbered fuel 2 stem is_taken)
  numbered-Found stem h =
      let (r, e) = numbered_total stem fuel is_taken taken known room in
      let (i, l, q, f) = numbered_some stem fuel 2 is_taken r e in
      (r, e, f, numbered-IsSlug stem fuel is_taken r h bound e)

  town-Found :
      (base : Text) (o : Option Text)
      → IsSlug base
      → OptionFits o
      → Found is_taken (free_with_town fuel base o is_taken)
  unfolding free_with_town
  town-Found base none h f = numbered-Found base h
  town-Found base (some town) h f =
      let slug : IsSlug (with_suffix base town) = with_suffix-IsSlug base town h f.0.words f.1 in
      elim (Bool-cases (is_taken (with_suffix base town))) [
        | inl t ↦ rw t (numbered-Found (with_suffix base town) slug)
        | inr t ↦ rw t (with_suffix base town, refl, t, slug)
      ]

  -- If every taken slug stands in a list shorter than the number of attempts, `first_free_slug` returns
  -- a slug, and that slug is not taken. The base is a slug, the post town's slug has at most 78
  -- characters, and the numbers tried are below 10^10, as all of a `u32` are.
  pub first_free_slug_total :
      (u : Unicode) (base : Text) (post_town : Option Text)
      → IsSlug base
      → TownFits u post_town
      → (r : Text) × (first_free_slug u fuel base post_town is_taken ≡ some r)
        × (is_taken r ≡ false)
        × IsSlug r
  unfolding first_free_slug
  first_free_slug_total u base post_town h fits = elim (Bool-cases (is_taken base)) [
    | inl t ↦ rw t (town-Found base (slug_of_town u post_town) h (town_fits u post_town fits))
    | inr t ↦ rw t (base, refl, t, h)
  ]

module _ (fuel : ℕ) (is_taken : Text → Bool) (taken : List Text)
    (known : (s : Text) → is_taken s ≡ true → Memᴰ s taken) (room : length taken < fuel) where
  -- A free slug, whatever the form of the base.
  abbrev pub Free : Option Text → Type 0
  Free o = (r : Text) × (o ≡ some r) × (is_taken r ≡ false)

  numbered-Free : (stem : Text) → Free (first_numbered fuel 2 stem is_taken)
  numbered-Free stem =
      let (r, e) = numbered_total stem fuel is_taken taken known room in
      let (i, l, q, f) = numbered_some stem fuel 2 is_taken r e in (r, e, f)

  town-Free : (base : Text) (o : Option Text) → Free (free_with_town fuel base o is_taken)
  unfolding free_with_town
  town-Free base none = numbered-Free base
  town-Free base (some town) =
      either_way Free (is_taken (with_suffix base town))
        (λ t. numbered-Free (with_suffix base town)) (λ t. (with_suffix base town, refl, t))

  -- If every taken slug stands in a list shorter than the number of attempts, a free one is found.
  pub first_free_slug-Free :
      (u : Unicode) (base : Text) (post_town : Option Text)
      → Free (first_free_slug u fuel base post_town is_taken)
  unfolding first_free_slug
  first_free_slug-Free u base post_town =
      either_way Free (is_taken base) (λ t. town-Free base (slug_of_town u post_town))
        (λ t. (base, refl, t))
