-- ===== src/Tests.antt =====
-- Concrete inputs for the tests: texts from literals, an ASCII `Unicode`, and a calendar of twelve
-- months of thirty days.
mod Membership
mod Slugs
mod Register
mod Directory
mod Listing
mod Addresses
mod Planner
mod Runs
use fau_portalen.Prelude.{
  ℕ, ◌+◌, ◌-◌, ◌*◌, ◌/◌, ◌≤◌, Option, none, some, false, [], ◌∷◌, map, arith, leb, if◌then◌else◌,
  Option-cases, Bool-cases, inl, inr, ◌≡◌, ◌⊎◌, ◌<◌,
}
use fau_portalen.Text.{Text, Unicode, to_ascii_lowercase, is_ascii_alphanumeric}
use fau_portalen.Calendar.{Calendar, Date, unwrap_or}
use fau_portalen.Membership.Rules.{IsCivil, add_months}

abbrev pub ascii : Unicode
ascii = record {
  to_lowercase = λ s. map to_ascii_lowercase s;
  is_alphanumeric = is_ascii_alphanumeric;
  nfc = λ s. s;
  nfkd = λ s. s;
  is_combining_mark = λ c. false;
}

abbrev pub last_day : ℕ
last_day = 7199999

abbrev pub within : Date → Option Date
within d = if leb d last_day then some d else none

abbrev pub even_months : Calendar
even_months = record {
  max_date = last_day;
  max_timestamp = 1000000000000000000000;
  checked_add_months = λ d n. within (d + 30 * n);
  checked_sub_months = λ d n. if leb (30 * n) d then some (d - 30 * n) else none;
  year = λ d. d / 360;
  civil = λ y m d. within (360 * y + 30 * (m - 1) + (d - 1));
  oslo_date = λ t. t / 86400000000000;
}

pub even_months-IsCivil : IsCivil even_months
unfolding add_months
even_months-IsCivil = record {
  bounded = λ d n. ground arith;
  mono = λ d m n h. ground arith;
  forward = λ d e n p h. ground arith;
  steps = λ d m n. ground arith;
  october = october;
}
  where
    october :
        (d : Date)
        → d ≤ last_day
        → (d ≤ unwrap_or (even_months.civil (even_months.year d) 10 1) last_day)
            × (unwrap_or (even_months.civil (even_months.year d) 10 1) last_day
                ≤ add_months even_months d 9)
          ⊎ (unwrap_or (even_months.civil (even_months.year d) 10 1) last_day < d)
            × (d ≤ unwrap_or (even_months.civil (even_months.year d + 1) 10 1) last_day)
            × (unwrap_or (even_months.civil (even_months.year d + 1) 10 1) last_day
                ≤ add_months even_months d 12)
    october d h = elim (Bool-cases (leb d (360 * (d / 360) + 270))) [
      | inl t ↦ inl (ground arith)
      | inr t ↦ inr (ground arith)
    ]
