-- ===== src/Register/Sync/Schools/Data.antt =====
-- schools.rs: what the planner collects about the units, and its plan.
use fau_portalen.Prelude.{ℕ, Option, none, some, Bool, List, if◌then◌else◌}
use fau_portalen.Prelude.Map
use fau_portalen.Text.{Text, Unicode, text_cmp}
use fau_portalen.Calendar.{Calendar, Date}
use fau_portalen.Register.Source.{NsrUnit}
use fau_portalen.Register.Sync.Types
use fau_portalen.Register.Sync.Similarity.{Floats}
use fau_portalen.Register.Sync.Municipalities.State.{RowId, MunicipalityState, has_number}

-- The tables and libraries that the planner calls: Unicode, jiff's calendar and its `Date::to_string`,
-- and `f32`. `attempts` bounds the numbered slugs that are tried.
pub record Host : Type 0 where
  pub unicode : Unicode
  pub calendar : Calendar
  pub show_date : Date → Text
  pub floats : Floats
  pub attempts : ℕ

abbrev pub School : Type 0
School = Types.SchoolSnapshot RowId

abbrev pub Municipality : Type 0
Municipality = Types.Ref RowId

pub record SchoolPlan : Type 0 where
  pub ops : List (Types.SchoolOp RowId)
  pub reviews : List (Types.ReviewItem RowId)
  pub skipped : ℕ

pub record Closing : Type 0 where
  pub school : School
  pub reason : Types.ClosureReason
  pub closed_on : Date
  pub reregistrable : Bool
  pub successor : Option Municipality

pub record FauClosing : Type 0 where
  pub school : School
  pub reregistrable : Bool
  pub reason : Types.ClosureReason
  pub closed_on : Date
  pub reregistered : Bool

pub record Candidate : Type 0 where
  pub unit : NsrUnit
  pub municipality : Municipality

pub data Placement : Type 0 where
  successor : Option Text → Placement
  held_reregistration held_submission listed : Placement

pub data Resolved : Type 0 where
  to : Municipality → Resolved
  blocked unknown : Resolved

abbrev pub found_or_unknown : Option Municipality → Resolved
found_or_unknown (some r) = to r
found_or_unknown none = unknown

unfoldable pub resolve : MunicipalityState → Text → Resolved
resolve state number =
    if has_number number state.blocked_numbers
    then blocked
    else found_or_unknown (Map.get text_cmp number state.by_number)
