-- ===== src/Text/Splitting.antt =====
-- `str::split`, `str::rsplit_once` at a character, and `join`.
use fau_portalen.Prelude.{
  ℕ, ◌≡◌, refl, ap, ◌∙◌, Bool, true, false, not, List, [], ◌∷◌, ◌++◌, Option, none, some, arith,
  ◌==◌, if◌then◌else◌, any, all, Option-cases, ◌≢◌, Bool-cases, inl, inr,
}
use fau_portalen.Text.Trim.{Text}

abbrev pub on_first : ℕ → List Text → List Text
on_first c [] = (c ∷ []) ∷ []
on_first c (w ∷ ws) = (c ∷ w) ∷ ws

unfoldable pub split : ℕ → Text → List Text
split sep [] = [] ∷ []
split sep (c ∷ s) = let rest = split sep s in if c == sep then [] ∷ rest else on_first c rest

-- What the search from the end answers for `c ∷ s`, from its answer for `s`.
rsplit_step : ℕ → ℕ → Text → Option (Text × Text) → Option (Text × Text)
rsplit_step sep c s (some (l, r)) = some (c ∷ l, r)
rsplit_step sep c s none = if c == sep then some ([], s) else none

unfoldable pub rsplit_once : ℕ → Text → Option (Text × Text)
unfolding rsplit_step
rsplit_once sep [] = none
rsplit_once sep (c ∷ s) = rsplit_step sep c s (rsplit_once sep s)

-- The words joined by one text between them.
unfoldable pub join : Text → List Text → Text
join sep [] = []
join sep (w ∷ []) = w
join sep (w ∷ v ∷ ws) = w ++ (sep ++ join sep (v ∷ ws))

abbrev pub has_char : ℕ → Text → Bool
has_char c s = any (λ d. d == c) s

split_at :
    (sep c : ℕ) (s : Text)
    → split sep (c ∷ s) ≡ (if c == sep then [] ∷ split sep s else on_first c (split sep s))
unfolding split
split_at sep c s = refl

pub rsplit_once-none : (sep : ℕ) (s : Text) → rsplit_once sep s ≡ none → has_char sep s ≡ false
unfolding rsplit_once
rsplit_once-none sep [] h = refl
rsplit_once-none sep (c ∷ s) h = elim (Option-cases (rsplit_once sep s)) [
  | inl e ↦ ground (arith, rsplit_once-none sep s e)
  | inr (p, e) ↦ ground (arith, e)
]

pub none-rsplit_once : (sep : ℕ) (s : Text) → has_char sep s ≡ false → rsplit_once sep s ≡ none
unfolding rsplit_once
none-rsplit_once sep [] h = refl
none-rsplit_once sep (c ∷ s) h = ground (arith, none-rsplit_once sep s)

-- A separator with none behind it is the one that `rsplit_once` finds.
pub rsplit_once-append :
    (sep : ℕ) (l r : Text) → has_char sep r ≡ false → rsplit_once sep (l ++ (sep ∷ r)) ≡ some (l, r)
unfolding rsplit_once
rsplit_once-append sep [] r h = ground (arith, none-rsplit_once sep r h)
rsplit_once-append sep (c ∷ l) r h = rw (rsplit_once-append sep l r h)

-- What `rsplit_once` returns: the text is its left part, the separator and its right part, in which
-- the separator does not occur.
pub rsplit_once-some :
    (sep : ℕ) (s l r : Text)
    → rsplit_once sep s ≡ some (l, r)
    → (s ≡ l ++ (sep ∷ r)) × (has_char sep r ≡ false)
unfolding rsplit_once
rsplit_once-some sep [] l r h = absurd (cc)
rsplit_once-some sep (c ∷ s) l r h = elim (Option-cases (rsplit_once sep s)) [
  | inl e ↦ ground (arith, e, rsplit_once-none sep s e)
  | inr (p, e) ↦ ground (arith, e, rsplit_once-some sep s p.0 p.1 e)
]

split_nonempty : (sep : ℕ) (s : Text) → split sep s ≢ []
unfolding split
split_nonempty sep [] = λ e. cc
split_nonempty sep (c ∷ s) = λ e. ground (arith, split_nonempty sep s)

join-on_first :
    (sep : Text) (c : ℕ) (ws : List Text) → ws ≢ [] → join sep (on_first c ws) ≡ c ∷ join sep ws
unfolding join
join-on_first sep c [] h = absurd (h refl)
join-on_first sep c (w ∷ []) h = refl
join-on_first sep c (w ∷ v ∷ ws) h = refl

join_empty : (sep : Text) (ws : List Text) → ws ≢ [] → join sep ([] ∷ ws) ≡ sep ++ join sep ws
unfolding join
join_empty sep [] h = absurd (h refl)
join_empty sep (w ∷ ws) h = refl

-- Splitting loses nothing: the pieces joined by the separator are the text.
pub join-split : (sep : ℕ) (s : Text) → join (sep ∷ []) (split sep s) ≡ s
join-split sep [] = unfold join split in refl
join-split sep (c ∷ s) = elim (Bool-cases (c == sep)) [
  | inl e ↦
      rw (split_at sep c s, e)
        (rw (join_empty (sep ∷ []) (split sep s) (split_nonempty sep s))
          (rw (join-split sep s) (ground arith)))
  | inr e ↦
      rw (split_at sep c s, e)
        (rw (join-on_first (sep ∷ []) c (split sep s) (split_nonempty sep s))
          (rw (join-split sep s)))
]

split_whole : (sep : ℕ) (w : Text) → has_char sep w ≡ false → split sep w ≡ w ∷ []
unfolding split
split_whole sep [] h = refl
split_whole sep (c ∷ w) h = ground (arith, split_whole sep w)

split-append :
    (sep : ℕ) (w t : Text) → has_char sep w ≡ false → split sep (w ++ (sep ∷ t)) ≡ w ∷ split sep t
unfolding split
split-append sep [] t h = ground arith
split-append sep (c ∷ w) t h = rw (split-append sep w t (ground arith)) (ground arith)

-- Pieces in which the separator does not occur are found again in their joined text.
pub split-join :
    (sep : ℕ) (ws : List Text)
    → ws ≢ []
    → all (λ w. not (has_char sep w)) ws ≡ true
    → split sep (join (sep ∷ []) ws) ≡ ws
unfolding join
split-join sep [] n h = absurd (n refl)
split-join sep (w ∷ []) n h = split_whole sep w (ground arith)
split-join sep (w ∷ v ∷ ws) n h =
    split-append sep w (join (sep ∷ []) (v ∷ ws)) (ground arith)
    ∙ ap (λ r. w ∷ r) (split-join sep (v ∷ ws) (λ e. cc) (ground arith))
