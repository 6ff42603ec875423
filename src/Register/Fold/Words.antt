-- ===== src/Register/Fold/Words.antt =====
-- text.rs, `collapse`: its result is words of `[a-z0-9]` joined by single separators.
use fau_portalen.Prelude.{
  ℕ, ◌≡◌, ◌⊎◌, inl, inr, refl, Bool, true, false, ◌&&◌, [], ◌∷◌, ◌++◌, arith, ◌==◌, if◌then◌else◌,
  is_empty, Bool-cases,
}
use fau_portalen.Text.{Text, has_char, to_ascii_lowercase}
use fau_portalen.Register.Fold.{
  is_kept, is_apostrophe, push_char, Collapsed, collapse_step, collapse_from, collapse,
}

-- Reads a text from the left: separators stand between kept characters only. `prev` says whether the
-- character before was a kept one.
abbrev pub reads_words : ℕ → Bool → Text → Bool
reads_words sep prev [] = prev
reads_words sep prev (c ∷ s) =
    let kept = reads_words sep true s in
    let gap = reads_words sep false s in if is_kept c then kept else c == sep && (prev && gap)

-- A nonempty sequence of words with one separator between each two.
abbrev pub IsWords : ℕ → Text → Type 0
IsWords sep s = reads_words sep false s ≡ true

pub reads_words-append :
    (sep : ℕ) (prev : Bool) (s t : Text)
    → reads_words sep prev s ≡ true
    → reads_words sep true t ≡ true
    → reads_words sep prev (s ++ t) ≡ true
reads_words-append sep prev [] t h k = rw h k
reads_words-append sep prev (c ∷ s) t h k =
    ground (arith, reads_words-append sep true s t, reads_words-append sep false s t)

-- What stands before a separator is words.
pub reads_words-before_sep :
    (sep : ℕ) (prev : Bool) (s t : Text)
    → is_kept sep ≡ false
    → reads_words sep prev (s ++ (sep ∷ t)) ≡ true
    → reads_words sep prev s ≡ true
reads_words-before_sep sep prev [] t n h = ground arith
reads_words-before_sep sep prev (c ∷ s) t n h =
    ground (arith, reads_words-before_sep sep true s t, reads_words-before_sep sep false s t)

-- A nonempty beginning with no separator in it is a word.
pub reads_words-before :
    (sep : ℕ) (prev : Bool) (s t : Text)
    → reads_words sep prev (s ++ t) ≡ true
    → has_char sep s ≡ false
    → (prev ≡ true) ⊎ (is_empty s ≡ false)
    → reads_words sep prev s ≡ true
reads_words-before sep prev [] t h n e = ground arith
reads_words-before sep prev (c ∷ s) t h n e = ground (arith, reads_words-before sep true s t)

IsCollapsed : ℕ → Collapsed → Type 0
IsCollapsed sep s = (s.out ≡ []) ⊎ IsWords sep s.out

push-IsWords :
    (sep : ℕ) (gap : Bool) (out : Text) (c : ℕ)
    → is_kept sep ≡ false
    → is_kept c ≡ true
    → (out ≡ []) ⊎ IsWords sep out
    → IsWords sep (push_char sep gap out c)
unfolding push_char
push-IsWords sep gap [] c n k h = ground arith
push-IsWords sep gap (b ∷ out) c n k (inl e) = absurd (cc)
push-IsWords sep gap (b ∷ out) c n k (inr h) = ground (
  arith,
  reads_words-append sep false (b ∷ out) (c ∷ []) h,
  reads_words-append sep false (b ∷ out) (sep ∷ c ∷ []) h,
)

step-IsCollapsed :
    (sep : ℕ) (s : Collapsed) (c : ℕ)
    → is_kept sep ≡ false
    → IsCollapsed sep s
    → IsCollapsed sep (collapse_step sep s c)
unfolding collapse_step IsCollapsed
step-IsCollapsed sep s c n h = elim (Bool-cases (is_apostrophe c)) [
  | inl a ↦ rw a h
  | inr a ↦ elim (Bool-cases (is_kept (to_ascii_lowercase c))) [
    | inl k ↦ rw (a, k) (inr (push-IsWords sep s.gap s.out (to_ascii_lowercase c) n k h))
    | inr k ↦ rw (a, k) h
  ]
]

from-IsCollapsed :
    (sep : ℕ) (s : Collapsed) (input : Text)
    → is_kept sep ≡ false
    → IsCollapsed sep s
    → IsCollapsed sep (collapse_from sep s input)
unfolding collapse_from
from-IsCollapsed sep s [] n h = h
from-IsCollapsed sep s (c ∷ input) n h =
    from-IsCollapsed sep (collapse_step sep s c) input n (step-IsCollapsed sep s c n h)

-- For a separator outside `[a-z0-9]`, the result of `collapse` is empty, or words of `[a-z0-9]` with
-- one separator between each two and none at either end.
pub collapse-IsWords :
    (input : Text) (sep : ℕ)
    → is_kept sep ≡ false
    → (collapse input sep ≡ []) ⊎ IsWords sep (collapse input sep)
unfolding collapse IsCollapsed
collapse-IsWords input sep n = from-IsCollapsed sep _ input n (inl refl)
