-- ===== src/Tests/Slugs.antt =====
-- Tests of register/text.rs and register/slug.rs.
use fau_portalen.Prelude.{
  ℕ, ◌≡◌, ◌↔◌, ◌⊎◌, refl, Option, none, some, Bool, false, [], ◌∷◌, Memᴰ, arith, ok, ◌==◌, ==_iff,
}
use fau_portalen.Tests.{ascii}
use fau_portalen.Text.{codes, Text, text_eq, text_eq_iff}
use fau_portalen.Register.Fold.{collapse, latin_fold, push_char}
use fau_portalen.Register.Fold.Words.{IsWords, collapse-IsWords}
use fau_portalen.Register.Slug.{
  dash, slugify, cap, cut_to_len, make_room_for, with_suffix, decimal, first_numbered,
  free_with_town, first_free_slug, municipality_slug, resolve, redirect,
}
use fau_portalen.Register.Slug.Form.{IsSlug, slugify-IsSlug}
use fau_portalen.Register.Slug.Free.{first_free_slug_total}
use fau_portalen.Register.Slug.Resolve.{resolve-redirect, municipality_slug_injective}

collapse-IsWords_example :
    (collapse (codes " Oslo  skole ") dash ≡ [])
    ⊎ IsWords dash (collapse (codes " Oslo  skole ") dash)
collapse-IsWords_example = collapse-IsWords (codes " Oslo  skole ") dash refl

slugify_runs : slugify ascii (codes "St. Olav's Skole") ≡ ok (codes "st-olavs-skole")
unfolding slugify cap cut_to_len collapse latin_fold push_char
slugify_runs = refl

slugify-IsSlug_example : IsSlug (codes "st-olavs-skole")
slugify-IsSlug_example =
    slugify-IsSlug ascii (codes "St. Olav's Skole") (codes "st-olavs-skole") slugify_runs

abbrev base : Text
base = codes "bakken"

base-IsSlug : IsSlug base
base-IsSlug = record { words = refl; short = omega arith; nonempty = omega arith }

abbrev is_base : Text → Bool
is_base s = text_eq s base

first_free_slug_example :
    (r : Text) × (first_free_slug ascii 2 base none is_base ≡ some r)
    × (is_base r ≡ false)
    × IsSlug r
first_free_slug_example =
    first_free_slug_total 2 is_base (base ∷ []) (λ s h. Memᴰ.head ((text_eq_iff s base).0 h))
      (omega arith) (omega arith) ascii base none base-IsSlug tt

first_free_slug_runs : first_free_slug ascii 2 base none is_base ≡ some (codes "bakken-2")
unfolding first_free_slug free_with_town first_numbered with_suffix make_room_for decimal
first_free_slug_runs = refl

resolve-redirect_example : (resolve (λ (a b : ℕ). a == b) none (7 ∷ 7 ∷ []) ≡ redirect 7) ↔ (
    ◌≡◌ {A = Option ℕ} none none
    × Memᴰ {A = ℕ} 7 (7 ∷ 7 ∷ [])
    × ((a : ℕ) → Memᴰ a (7 ∷ 7 ∷ []) → a ≡ 7))
resolve-redirect_example = resolve-redirect (λ (a b : ℕ). a == b) ==_iff none (7 ∷ 7 ∷ []) 7

municipality_slug_injective_example : codes "0301" ≡ codes "0301"
municipality_slug_injective_example =
    municipality_slug_injective ascii (codes "0301") (codes "0301") (codes "Oslo") (codes "Oslo")
      (codes "0301-oslo") runs runs
  where
    runs : municipality_slug ascii (codes "0301") (codes "Oslo") ≡ ok (codes "0301-oslo")
    runs = unfold municipality_slug slugify cap cut_to_len collapse latin_fold push_char in refl
