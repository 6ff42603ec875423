-- ===== src/Register/Sync/Municipalities/State.antt =====
-- municipalities.rs: what the planner keeps as it goes along, and what it hands on.
use fau_portalen.Prelude.{ℕ, Option, Bool, false, true, List, any}
use fau_portalen.Prelude.Map.{is_some}
use fau_portalen.Prelude.Map
use fau_portalen.Text.{Text, text_eq, text_cmp}
use fau_portalen.Register.Sync.Types

abbrev pub RowId : Type 0
RowId = ℕ

abbrev pub NumberMap : Type 0
NumberMap = List (Text × Types.Ref RowId)

-- `contains` on a set of numbers.
abbrev pub has_number : Text → List Text → Bool
has_number n numbers = any (text_eq n) numbers

-- What the school planner needs; `blocked_numbers` is a set.
pub record MunicipalityState : Type 0 where
  pub by_number : NumberMap
  pub blocked_numbers : List Text
  pub blocked_ids : List RowId

pub record MunicipalityPlan : Type 0 where
  pub ops : List (Types.MunicipalityOp RowId)
  pub reviews : List (Types.ReviewItem RowId)
  pub state : MunicipalityState

pub record Working : Type 0 where
  pub row : Types.MunicipalitySnapshot RowId
  pub number : Text
  pub name : Text
  pub slug : Text

-- The variables of `plan_municipalities`. Operations and reviews stand in the order of the pushes.
pub record Planning : Type 0 where
  pub ops : List (Types.MunicipalityOp RowId)
  pub reviews : List (Types.ReviewItem RowId)
  pub by_number : NumberMap
  pub working : List (RowId × Working)
  pub blocked_numbers : List Text
  pub next_new : ℕ

unfoldable pub holder_of : Text → NumberMap → Option (Types.Ref RowId)
holder_of number m = Map.get text_cmp number m

abbrev pub is_manual : Types.MunicipalitySource → Bool
is_manual Types.MunicipalitySource.manual = true
is_manual Types.MunicipalitySource.kartverket = false

abbrev pub is_active : Types.MunicipalityStatus → Bool
is_active Types.MunicipalityStatus.active = true
is_active Types.MunicipalityStatus.dissolved = false
