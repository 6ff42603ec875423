-- ===== src/Register/Sync/Schools/Minting.antt =====
-- schools.rs: a slug is minted whatever the book holds, and how the book grows.
use fau_portalen.Prelude.{
  ℕ, suc, ◌+◌, ◌<◌, ◌≤◌, ◌≡◌, refl, ap, ◌∙◌, Ordering, then_by, Option, none, some, Bool, true,
  false, ◌||◌, List, [], ◌∷◌, ◌++◌, Memᴰ, any, arith, length, length-append, ◌⊎◌, inl, inr,
  either_way, if◌then◌else◌,
}
use mathlib.Core.List.Memᴰ as MemD
use fau_portalen.Prelude.Map
use fau_portalen.Prelude.Map.{IsKeyed}
use fau_portalen.Text.{Text, text_cmp, text_cmp-IsKeyed, compare-IsKeyed}
use fau_portalen.Register.Slug.{first_free_slug}
use fau_portalen.Register.Slug.Free.{first_free_slug-Free}
use fau_portalen.Register.Sync.Types
use fau_portalen.Register.Sync.Municipalities.State.{RowId}
use fau_portalen.Register.Sync.Schools.Data.{Host, School, Municipality}
use fau_portalen.Register.Sync.Schools.Book.{
  ref_cmp, slug_cmp, SlugBook, take_slug, with_slug, release, without_slug, held_by_other, holders,
  is_counted, is_taken, mint, book_schools, book_history, new_book, is_closed, close_id,
}

then_by_eq : (a b : Ordering) → then_by a b ≡ Ordering.eq → (a ≡ Ordering.eq) × (b ≡ Ordering.eq)
then_by_eq Ordering.eq b h = (refl, h)
then_by_eq Ordering.lt b h = absurd (cc)
then_by_eq Ordering.gt b h = absurd (cc)

ref_same : (a b : Municipality) → ref_cmp a b ≡ Ordering.eq → a ≡ b
unfolding ref_cmp
ref_same (Types.Ref.existing a) (Types.Ref.existing b) h =
    ap Types.Ref.existing (compare-IsKeyed.same a b h)
ref_same (Types.Ref.existing a) (Types.Ref.new b) h = absurd (cc)
ref_same (Types.Ref.new a) (Types.Ref.existing b) h = absurd (cc)
ref_same (Types.Ref.new a) (Types.Ref.new b) h = ap Types.Ref.new (compare-IsKeyed.same a b h)

ref_self : (a : Municipality) → ref_cmp a a ≡ Ordering.eq
unfolding ref_cmp
ref_self (Types.Ref.existing a) = compare-IsKeyed.self a
ref_self (Types.Ref.new a) = compare-IsKeyed.self a

slug_same : (a b : Municipality × Text) → slug_cmp a b ≡ Ordering.eq → a ≡ b
unfolding slug_cmp
slug_same (m, s) (n, t) h =
    let (x, y) = then_by_eq (ref_cmp m n) (text_cmp s t) h in
    let e = ref_same m n x in let f = text_cmp-IsKeyed.same s t y in cc

slug_self : (a : Municipality × Text) → slug_cmp a a ≡ Ordering.eq
unfolding slug_cmp
slug_self (m, s) = rw (ref_self m) (text_cmp-IsKeyed.self s)

pub slug_cmp-IsKeyed : IsKeyed slug_cmp
slug_cmp-IsKeyed = record { same = slug_same; self = slug_self }

-- The slugs that a book knows, in any municipality.
abbrev slugs_of : List (Municipality × Text) → List Text
slugs_of [] = []
slugs_of ((m, s) ∷ keys) = s ∷ slugs_of keys

length-slugs_of : (keys : List (Municipality × Text)) → length (slugs_of keys) ≡ length keys
length-slugs_of [] = refl
length-slugs_of ((m, s) ∷ keys) = ap (λ n. suc n) (length-slugs_of keys)

mem-slugs_of :
    (m : Municipality) (s : Text) (keys : List (Municipality × Text))
    → Memᴰ (m, s) keys
    → Memᴰ s (slugs_of keys)
mem-slugs_of m s [] h = absurd (MemD.not-nil h)
mem-slugs_of m s ((n, t) ∷ keys) h = elim (MemD.cases_cons h) [
  | inl e ↦ Memᴰ.head (ap (λ (k : Municipality × Text). k.1) e)
  | inr h' ↦ Memᴰ.tail (mem-slugs_of m s keys h')
]

abbrev pub size : SlugBook → ℕ
size b = length b.current + length b.history

abbrev known_slugs : SlugBook → List Text
known_slugs b = slugs_of (Map.keys slug_cmp b.current) ++ slugs_of (Map.keys slug_cmp b.history)

length-known_slugs : (b : SlugBook) → length (known_slugs b) ≡ size b
length-known_slugs b =
    length-append (slugs_of (Map.keys slug_cmp b.current)) (slugs_of (Map.keys slug_cmp b.history))
    ∙ omega (
      arith,
      length-slugs_of (Map.keys slug_cmp b.current),
      length-slugs_of (Map.keys slug_cmp b.history),
      Map.length-keys slug_cmp b.current,
      Map.length-keys slug_cmp b.history,
    )

found-slug :
    {V : Type 0} (m : Municipality) (s : Text) (o : Option V)
    (map : List ((Municipality × Text) × V))
    → Map.get slug_cmp (m, s) map ≡ o
    → Map.is_some o ≡ true
    → Memᴰ s (slugs_of (Map.keys slug_cmp map))
found-slug m s none map e h = absurd (cc)
found-slug m s (some v) map e h =
    mem-slugs_of m s (Map.keys slug_cmp map) (Map.get-mem slug_cmp slug_cmp-IsKeyed (m, s) v map e)

held_some :
    (me : Municipality) (o : Option Municipality) → held_by_other me o ≡ true → Map.is_some o ≡ true
held_some me none h = absurd (cc)
held_some me (some x) h = refl

counted_some :
    (f : RowId → Bool) (o : Option (List RowId)) → any f (holders o) ≡ true → Map.is_some o ≡ true
counted_some f none h = absurd (cc)
counted_some f (some x) h = refl

or_cases : (a b : Bool) → (a || b) ≡ true → (a ≡ true) ⊎ (b ≡ true)
or_cases true b h = inl refl
or_cases false b h = inr h

-- A taken slug is one that the book knows.
is_taken-known :
    (b : SlugBook) (m me : Municipality) (s : Text)
    → is_taken b m me s ≡ true
    → Memᴰ s (known_slugs b)
unfolding is_taken
is_taken-known b m me s h =
    elim (or_cases (held_by_other me (Map.get slug_cmp (m, s) b.current)) _ h) [
      | inl e ↦ MemD.append_left _ (
          found-slug m s (Map.get slug_cmp (m, s) b.current) b.current refl
            (held_some me (Map.get slug_cmp (m, s) b.current) e))
      | inr e ↦ MemD.append_right _ (
          found-slug m s (Map.get slug_cmp (m, s) b.history) b.history refl
            (counted_some (is_counted b me) (Map.get slug_cmp (m, s) b.history) e))
    ]

pub take_slug-size :
    (b : SlugBook) (m : Municipality) (s : Text) (holder : Municipality)
    → size (take_slug b m s holder) ≤ size b + 1
unfolding take_slug
take_slug-size b m s holder = omega (arith, Map.length-insert slug_cmp (m, s) holder b.current)

-- What minting gives: a slug that no other holds, and a book that knows at most one slug more.
pub record Mints (b : SlugBook) (m me : Municipality) (o : Option (Text × SlugBook)) : Type 0 where
  pub slug : Text
  pub book : SlugBook
  pub is : o ≡ some (slug, book)
  pub free : is_taken b m me slug ≡ false
  pub held : Map.get slug_cmp (m, slug) book.current ≡ some me
  pub grown : size book ≤ size b + 1

mint_at :
    (host : Host) (b : SlugBook) (m : Municipality) (base : Text) (town : Option Text)
    (me : Municipality) (r : Text)
    → first_free_slug host.unicode host.attempts base town (is_taken b m me) ≡ some r
    → mint host b m base town me ≡ some (r, take_slug b m r me)
unfolding mint
mint_at host b m base town me r e = rw (e, mint) refl

-- With more attempts than the book knows slugs, a slug is minted: one that no other school holds, which
-- is then held by the school that it was minted for.
pub mint-Mints :
    (host : Host) (b : SlugBook) (m : Municipality) (base : Text) (town : Option Text)
    (me : Municipality)
    → size b < host.attempts
    → Mints b m me (mint host b m base town me)
unfolding take_slug
mint-Mints host b m base town me h =
    let (r, e, f) =
      first_free_slug-Free host.attempts (is_taken b m me) (known_slugs b) (is_taken-known b m me)
        (omega (arith, length-known_slugs b)) host.unicode base town in
    record {
      slug = r;
      book = take_slug b m r me;
      is = mint_at host b m base town me r e;
      free = f;
      held = Map.get-insert_self slug_cmp slug_cmp-IsKeyed (m, r) me b.current;
      grown = take_slug-size b m r me;
    }

without_slug-size :
    (b : SlugBook) (s : School) (o : Option Text) → size (without_slug b s o) ≤ size b
without_slug-size b s none = omega arith
without_slug-size b s (some slug) =
    omega (arith, Map.length-remove slug_cmp (Types.Ref.existing s.municipality_id, slug) b.current)

pub release-size : (b : SlugBook) (s : School) → size (release b s) ≤ size b
unfolding release
release-size b s = without_slug-size b s s.slug

with_slug-size : (b : SlugBook) (s : School) (o : Option Text) → size (with_slug b s o) ≤ size b + 1
with_slug-size b s none = omega arith
with_slug-size b s (some slug) =
    take_slug-size b (Types.Ref.existing s.municipality_id) slug (Types.Ref.existing s.id)

book_schools-size :
    (b : SlugBook) (ss : List School) → size (book_schools b ss) ≤ size b + length ss
unfolding book_schools
book_schools-size b [] = omega arith
book_schools-size b (s ∷ ss) =
    let held = with_slug b s s.slug in
    let b' = if is_closed s.status then close_id held s.id else held in
    let l : size b' ≤ size b + 1 =
      either_way (λ (c : SlugBook). size c ≤ size b + 1) (is_closed s.status)
        (λ t. with_slug-size b s s.slug) (λ t. with_slug-size b s s.slug) in
    omega (arith, book_schools-size b' ss, l)

book_history-size :
    (b : SlugBook) (hs : List (RowId × Text × RowId))
    → size (book_history b hs) ≤ size b + length hs
unfolding book_history
book_history-size b [] = omega arith
book_history-size b ((m, slug, s) ∷ hs) =
    let key : Municipality × Text = (Types.Ref.existing m, slug) in
    let holding = s ∷ holders (Map.get slug_cmp key b.history) in
    let b' : SlugBook = record b { history = Map.insert slug_cmp key holding b.history } in
    omega (arith, book_history-size b' hs, Map.length-insert slug_cmp key holding b.history)

pub new_book-size :
    (snapshot : Types.RegisterSnapshot RowId)
    → size (new_book snapshot) ≤ length snapshot.schools + length snapshot.school_slug_history
unfolding new_book
new_book-size snapshot =
    let start : SlugBook = record { current = []; history = []; closed = [] } in
    omega (
      arith,
      book_history-size (book_schools start snapshot.schools) snapshot.school_slug_history,
      book_schools-size start snapshot.schools,
    )
