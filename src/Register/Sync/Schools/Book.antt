-- ===== src/Register/Sync/Schools/Book.antt =====
-- schools.rs, `SlugBook`: who holds which school slug.
use fau_portalen.Prelude.{
  Ordering, compare, then_by, is_eq, Option, none, some, Bool, true, false, ◌&&◌, ◌||◌, not, List,
  [], ◌∷◌, any, if◌then◌else◌, ◌==◌,
}
use fau_portalen.Prelude.Map
use fau_portalen.Prelude.Map.{IsKeyed}
use fau_portalen.Text.{Text, text_cmp}
use fau_portalen.Register.Slug.{first_free_slug}
use fau_portalen.Register.Sync.Types
use fau_portalen.Register.Sync.Municipalities.State.{RowId}
use fau_portalen.Register.Sync.Schools.Data.{Host, School, Municipality}

-- `Ord` as it is derived for `Ref`.
unfoldable pub ref_cmp : Municipality → Municipality → Ordering
ref_cmp (Types.Ref.existing a) (Types.Ref.existing b) = compare a b
ref_cmp (Types.Ref.existing a) (Types.Ref.new b) = Ordering.lt
ref_cmp (Types.Ref.new a) (Types.Ref.existing b) = Ordering.gt
ref_cmp (Types.Ref.new a) (Types.Ref.new b) = compare a b

abbrev pub ref_eq : Municipality → Municipality → Bool
ref_eq a b = is_eq (ref_cmp a b)

-- The keys of the book: a municipality and a slug.
unfoldable pub slug_cmp : Municipality × Text → Municipality × Text → Ordering
slug_cmp a b = then_by (ref_cmp (a.0) (b.0)) (text_cmp (a.1) (b.1))

pub record SlugBook : Type 0 where
  pub current : List ((Municipality × Text) × Municipality)
  pub history : List ((Municipality × Text) × List RowId)
  pub closed : List RowId

abbrev pub is_closed : Types.SchoolStatus → Bool
is_closed Types.SchoolStatus.closed = true
is_closed Types.SchoolStatus.active = false

unfoldable pub take_slug : SlugBook → Municipality → Text → Municipality → SlugBook
take_slug b m slug holder = record b { current = Map.insert slug_cmp (m, slug) holder b.current }

abbrev pub with_slug : SlugBook → School → Option Text → SlugBook
with_slug b s none = b
with_slug b s (some slug) =
    take_slug b (Types.Ref.existing s.municipality_id) slug (Types.Ref.existing s.id)

abbrev pub close_id : SlugBook → RowId → SlugBook
close_id b id = record b { closed = id ∷ b.closed }

-- The two loops of `SlugBook::new`.
unfoldable pub book_schools : SlugBook → List School → SlugBook
book_schools b [] = b
book_schools b (s ∷ ss) =
    let held = with_slug b s s.slug in
    book_schools (if is_closed s.status then close_id held s.id else held) ss

abbrev pub holders : Option (List RowId) → List RowId
holders none = []
holders (some hs) = hs

-- The holders are only searched, so a new one may stand first.
unfoldable pub book_history : SlugBook → List (RowId × Text × RowId) → SlugBook
book_history b [] = b
book_history b ((m, slug, s) ∷ rest) =
    let key : Municipality × Text = (Types.Ref.existing m, slug) in
    book_history
      (record b {
        history = Map.insert slug_cmp key (s ∷ holders (Map.get slug_cmp key b.history)) b.history;
      })
      rest

unfoldable pub new_book : Types.RegisterSnapshot RowId → SlugBook
unfolding book_schools book_history
new_book snapshot =
    book_history
      (book_schools (record { current = []; history = []; closed = [] }) snapshot.schools)
      snapshot.school_slug_history

abbrev pub without_slug : SlugBook → School → Option Text → SlugBook
without_slug b s none = b
without_slug b s (some slug) = record b {
  current = Map.remove slug_cmp (Types.Ref.existing s.municipality_id, slug) b.current;
}

unfoldable pub release : SlugBook → School → SlugBook
release b s = close_id (without_slug b s s.slug) s.id

abbrev pub held_by_other : Municipality → Option Municipality → Bool
held_by_other me none = false
held_by_other me (some holder) = not (ref_eq holder me)

abbrev pub is_counted : SlugBook → Municipality → RowId → Bool
is_counted b me h = not (ref_eq (Types.Ref.existing h) me) && not (any (λ i. i == h) b.closed)

unfoldable pub is_taken : SlugBook → Municipality → Municipality → Text → Bool
is_taken b m me slug =
    held_by_other me (Map.get slug_cmp (m, slug) b.current)
    || any (is_counted b me) (holders (Map.get slug_cmp (m, slug) b.history))

-- `none` where no free slug is found.
unfoldable pub mint :
    Host → SlugBook → Municipality → Text → Option Text → Municipality → Option (Text × SlugBook)
mint host b m base post_town me =
    elim (first_free_slug host.unicode host.attempts base post_town (is_taken b m me)) [
      | none ↦ none
      | some slug ↦ some (slug, take_slug b m slug me)
    ]
