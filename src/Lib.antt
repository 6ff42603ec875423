-- ===== src/Lib.antt =====
-- The domain rules of the FAU portal: a service in which parents' councils (FAU-er) of Norwegian
-- schools keep members, groups and documents. This library models the crate
-- backend/crates/domain, the pure part of the backend: entities, role periods, capability rules,
-- address and history rules, and the register of schools. The crates around it (persistence, HTTP,
-- key service, command line) call these functions inside a transaction and store what they return.
--
-- Parts, and how they correspond to the code (paths below backend/crates/domain/src):
--   Prelude             Boolean tests, lists measured by native numbers, `Result` with `?` as a do
--                       block, integers, stable sorting, keyed maps, a pigeonhole lemma
--   Text                Rust's `str` as the list of its code points: `trim`, `split`, `rsplit_once`,
--                       `join`; the Unicode tables are the parameter `Unicode`
--   Calendar            time.rs; a date is the number of its day, an instant the number of its
--                       nanosecond, and jiff's calendar arithmetic is the parameter `Calendar`
--   Email               email.rs: `Email::parse`; proofs in Label and Form
--   Membership.Period   membership/period.rs: `Period::new`, `contains`, `has_ended_by`
--   Membership.Vocabulary, .Names   membership/vocabulary.rs: codes and validated names
--   Membership.Access   membership/access.rs: `evaluate_access`, `tenant_has_admin`,
--                       `removal_leaves_no_admin`; proofs in Rights and LastAdmin
--   Membership.Acceptance, .Rules, .Retention, .Requests   the files of those names
--   Authz               authz.rs: `decide`; proofs in Rules
--   Register.Fold       register/text.rs: `latin_fold`, `collapse`; proofs in Words
--   Register.Slug       register/slug.rs; proofs in Form, Decimal, Free and Resolve
--   Register.Search     register/search.rs: `search_text`, `search_query`
--   Register.Scope      register/scope.rs: `classify`, codes, the operator override
--   Register.Source     register/source.rs: the records of the public registers
--   Register.Brreg      register/brreg.rs: address keys; Words are its words and markers, Street writes
--                       a street line, Suggest is `suggest_fau_name`; proofs in Personal, Keys,
--                       Marked, Marker and CareOf
--   Register.Sync.Types, .Codes   register/sync/types.rs: snapshot, inputs, plan, and their codes
--   Register.Sync.Totals   register/sync/mod.rs: `tally`, `attribute_losses`, `mass_change`; proofs
--                       in Tally
--   Register.Sync.Outcome   register/sync/mod.rs: the end of `plan_with`; proofs in Breakers
--   Register.Sync.Municipalities   register/sync/municipalities.rs: State is its types, Groups the SSB
--                       changes by old code, Renumber the loop over them, Records the loop over
--                       Kartverket's records, Plan the whole; proofs in Sound, Counted, Renumbered,
--                       Recorded and Total
--   Register.Sync.Similarity   register/sync/similarity.rs: trigrams and their similarity; proofs in
--                       Bounds
--   Register.Sync.Schools   register/sync/schools.rs: Data is its types, Book the slug book, Classify
--                       the loop over the units, Place `place_all`, Update `plan_update`, Plan
--                       `plan_schools`; proofs in Sorted, Placed, Planned, Closed, Minting, Updated,
--                       Work, Matched, Successors, Linked and Total
--   Register.Sync.Run   register/sync/mod.rs: `plan`, `plan_accepting_mass_change`, `plan_with`;
--                       proofs in Units, Order, Answer and Accepted
--   Directory.History   directory/history.rs: `role_label`, `ended_on`, `active_period`; proofs in
--                       Label, Runs and Period
--   Directory.Address   directory/address.rs: `Recipients`, `mailto`, `address_spec`; proofs in
--                       Reader, Spec, Percent, Link and Unique
--   Directory.Listing   directory/listing.rs: `arrange`, over a collation; proofs in Kept, Grouped
--                       and Arranged
--   Tests               concrete inputs, runs of the code and instances of the theorems
--
-- A Rust `enum` is a data type with its variants, a `struct` a record, an early `return Err` the
-- `refuse_if` of a do block, an iterator chain the same chain of list functions. Integers that the
-- code compares and adds are native numbers, or ℤ where they can be negative; where a subtraction
-- saturates, so does that of ℕ. Names that Rust redacts in `Debug` are plain texts here, since
-- printing is not modelled.
--
-- Bounds and fuel: `first_free_slug` tries the numbers from 2 on for a given number of attempts; more
-- attempts than there are taken slugs are enough, and the source's range is that of a `u32`. `decimal`
-- takes one more round than its number, which is enough for any number. For the
-- planners, more attempts than there are schools, former slugs and twice the units are enough; for
-- `recase_from`, a round for each character.
--
-- The planners are generic in the row id; here an id is a number, which has the order and equality that
-- they ask for. A `BTreeMap` or `HashMap` is the list of its entries in the order of their keys, a set
-- that is only searched the list of its elements. A panic of the source is `none`. An `f32` is its bit
-- pattern, which for the finite numbers from zero on orders as they do; its division and its printing
-- are parameters (`Floats`), as are Unicode, the calendar and `Date::to_string` (`Host`). The numbers of
-- new rows are a `u32` in the source, so a run creates at most 2^32 schools there.
--
-- Not modelled: the ICU collator that directory/collation.rs builds; the constants of error_code.rs and
-- schema_contract.rs; the crates around this one, which are SQL, HTTP, encryption, the fetching of
-- source records and the command line; and the printing of values.
mod Prelude
pub mod Text
pub mod Calendar
pub mod Email
pub mod Membership
pub mod Authz
pub mod Register
pub mod Directory
pub mod Tests
