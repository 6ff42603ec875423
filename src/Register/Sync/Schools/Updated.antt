-- ===== src/Register/Sync/Schools/Updated.antt =====
-- schools.rs, `plan_update`: with attempts left, it answers.
use fau_portalen.Prelude.{
  ℕ, ◌+◌, ◌*◌, ◌<◌, ◌≤◌, ◌≡◌, refl, Option, none, some, Bool, ◌||◌, List, [], ◌∷◌, ◌++◌, arith,
  length, ok, err, Result, either_way, chain_at,
}
use fau_portalen.Text.{Text, text_eq}
use fau_portalen.Register.Slug.{SlugError, slugify}
use fau_portalen.Register.Source.{NsrUnit}
use fau_portalen.Register.Sync.Types
use fau_portalen.Register.Sync.Municipalities.State.{RowId}
use fau_portalen.Register.Sync.Schools.Data.{Host, School, Municipality}
use fau_portalen.Register.Sync.Schools.Book.{SlugBook, mint}
use fau_portalen.Register.Sync.Schools.Update.{
  Minted, one_op, mint_change, new_unless_same, change_from, rename_slug, plan_rename, move_slug,
  plan_move, attribute_ops, is_moving, plan_update, is_name, base_or, shown_name,
}
use fau_portalen.Register.Sync.Schools.Plan.{plan_updates}
use fau_portalen.Register.Sync.Schools.Minting.{size, mint-Mints}

-- A result that is given, with a book that knows at most one slug more than the book before.
abbrev pub Gives {ℓ} : {A : Type ℓ} → ℕ → SlugBook → Option (A × SlugBook) → Type ℓ
Gives {A = A} n b o = (a : A) × (b' : SlugBook) × (o ≡ some (a, b')) × (size b' ≤ size b + n)

module _ (host : Host) (school : School) (unit : NsrUnit) (town : Option Text) where
  abbrev own : Municipality
  own = Types.Ref.existing school.id

  mint_change-Gives :
      (b : SlugBook) (old : Option Text) (base : Text)
      → size b < host.attempts
      → Gives 1 b (mint_change host school unit town b old base)
  unfolding mint_change
  mint_change-Gives b old base h =
      let m = mint-Mints host b (Types.Ref.existing school.municipality_id) base town own h in
      (new_unless_same old m.slug, m.book, rw (m.is, mint_change) refl, m.grown)

  change_from-Gives :
      (b : SlugBook) (old : Option Text) (r : Result SlugError Text)
      → size b < host.attempts
      → Gives 1 b (change_from host school unit town b old r)
  change_from-Gives b old (err e) h = (none, b, refl, omega arith)
  change_from-Gives b none (ok base) h = mint_change-Gives b none base h
  change_from-Gives b (some old) (ok base) h =
      either_way (Gives 1 b) (text_eq base old) (λ t. (none, b, refl, omega arith))
        (λ t. mint_change-Gives b (some old) base h)

  rename_slug-Gives :
      (b : SlugBook) (moving : Bool)
      → size b < host.attempts
      → Gives 1 b (rename_slug host school unit town b moving)
  unfolding rename_slug
  rename_slug-Gives b moving h =
      either_way (Gives 1 b) (moving || school.display_name_curated)
        (λ t. (none, b, refl, omega arith))
        (λ t. change_from-Gives b school.slug (slugify host.unicode unit.name) h)

  one_op-Gives :
      (b : SlugBook) (op : Option Types.SlugChange → Types.SchoolOp RowId) (o : Minted)
      → Gives 1 b o
      → Gives 1 b (one_op op o)
  one_op-Gives b op o (c, b', e, l) = (op c ∷ [], b', rw e refl, l)

  plan_rename-Gives :
      (b : SlugBook) (moving : Bool)
      → size b < host.attempts
      → Gives 1 b (plan_rename host school unit town b moving)
  unfolding plan_rename
  plan_rename-Gives b moving h =
      either_way (Gives 1 b) (is_name host school unit town school.register_name)
        (λ t. ([], b, refl, omega arith)) (λ t. one_op-Gives b _ _ (rename_slug-Gives b moving h))

  move_slug-Gives :
      (b : SlugBook) (goal : Municipality) (old : Option Text)
      → size b < host.attempts
      → Gives 1 b (move_slug host school unit town b goal old)
  move_slug-Gives b goal none h = (none, b, refl, omega arith)
  move_slug-Gives b goal (some old) h =
      let base =
        base_or host school unit town (slugify host.unicode (shown_name host school unit town))
          old in
      let m = mint-Mints host b goal base town own h in
      (
        some (record { old = some old; new = m.slug }),
        m.book,
        chain_at (mint host b goal base town own) _ (m.slug, m.book) m.is,
        m.grown,
      )

  plan_move-Gives :
      (b : SlugBook) (goal : Municipality) (moving : Bool)
      → size b < host.attempts
      → Gives 1 b (plan_move host school unit town b goal moving)
  unfolding plan_move
  plan_move-Gives b goal moving h =
      either_way (Gives 1 b) moving (λ t. one_op-Gives b _ _ (move_slug-Gives b goal school.slug h))
        (λ t. ([], b, refl, omega arith))

update_at :
    (host : Host) (b c d : SlugBook) (s : School) (unit : NsrUnit) (goal : Municipality)
    (renames moves : List (Types.SchoolOp RowId))
    → plan_rename host s unit (Types.from_unit unit).post_town b (is_moving s goal)
      ≡ some (renames, c)
    → plan_move host s unit (Types.from_unit unit).post_town c goal (is_moving s goal)
      ≡ some (moves, d)
    → plan_update host b s unit goal
      ≡ some (renames ++ (attribute_ops s (Types.from_unit unit) ++ moves), d)
unfolding plan_update
update_at host b c d s unit goal renames moves e f = rw (e, f, plan_update) refl

update-Gives :
    (host : Host) (b : SlugBook) (s : School) (unit : NsrUnit) (goal : Municipality)
    → size b + 1 < host.attempts
    → Gives 2 b (plan_update host b s unit goal)
update-Gives host b s unit goal h =
    let (renames, c, e, l) =
      plan_rename-Gives host s unit (Types.from_unit unit).post_town b (is_moving s goal)
        (omega arith) in
    let (moves, d, f, k) =
      plan_move-Gives host s unit (Types.from_unit unit).post_town c goal (is_moving s goal)
        (omega arith) in
    (_, d, update_at host b c d s unit goal renames moves e f, omega arith)

updates_at :
    (host : Host) (b c d : SlugBook) (s : School) (unit : NsrUnit) (goal : Municipality)
    (us : List (School × NsrUnit × Municipality)) (xs ys : List (Types.SchoolOp RowId))
    → plan_update host b s unit goal ≡ some (xs, c)
    → plan_updates host c us ≡ some (ys, d)
    → plan_updates host b ((s, unit, goal) ∷ us) ≡ some (xs ++ ys, d)
unfolding plan_updates
updates_at host b c d s unit goal us xs ys e f = rw (plan_updates, e, f) refl

pub updates-Gives :
    (host : Host) (b : SlugBook) (us : List (School × NsrUnit × Municipality))
    → size b + 2 * length us < host.attempts
    → Gives (2 * length us) b (plan_updates host b us)
updates-Gives host b [] h = ([], b, unfold plan_updates in refl, omega arith)
updates-Gives host b ((s, unit, goal) ∷ us) h =
    let (xs, c, e, l) = update-Gives host b s unit goal (omega arith) in
    let (ys, d, f, k) = updates-Gives host c us (omega arith) in
    (_, d, updates_at host b c d s unit goal us xs ys e f, omega arith)
