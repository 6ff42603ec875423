-- ===== src/Register/Source.antt =====
-- register/source.rs: source records as the register's rules see them.
use fau_portalen.Prelude.{ℕ, ℤ, Option, Bool, List}
use fau_portalen.Text.{Text}
use fau_portalen.Calendar.{Date, Timestamp}
use fau_portalen.Register.Scope.{NsrScopeFacts, primary_nace}

pub record OfficialName : Type 0 where
  pub name : Text
  pub language : Text
  pub priority : ℕ  -- u8

pub record MunicipalityRecord : Type 0 where
  pub number : Text
  pub norwegian_name : Text
  pub official_name : Text
  pub county_number : Text
  pub county_name : Text
  pub names : List OfficialName

pub record CodeChange : Type 0 where
  pub old_code : Text
  pub old_name : Text
  pub new_code : Text
  pub new_name : Text
  pub occurred_on : Date

pub record NsrAddress : Type 0 where
  pub street : Option Text
  pub postcode : Option Text
  pub post_town : Option Text

pub record NsrClosure : Type 0 where
  pub code : Text
  pub at : Option Timestamp

pub record NsrUnit : Type 0 where
  pub orgnr : Text
  pub name : Text
  pub municipality_number : Text
  pub is_school : Bool
  pub is_active : Bool
  pub is_primary_school : Bool
  pub is_private : Bool
  pub category_ids : List Text
  pub nace : List (ℤ × Text)
  pub grade_from : Option ℤ  -- i16
  pub grade_to : Option ℤ  -- i16
  pub language : Option Text
  pub website : Option Text
  pub visiting : NsrAddress
  pub postal : NsrAddress
  pub closure : Option NsrClosure
  pub changed_at : Option Timestamp

unfoldable pub scope_facts : NsrUnit → NsrScopeFacts
unfolding primary_nace
scope_facts u = record {
  is_school = u.is_school;
  is_active = u.is_active;
  is_primary_school = u.is_primary_school;
  municipality_number = u.municipality_number;
  category_ids = u.category_ids;
  primary_nace = primary_nace u.nace;
}

pub record BrregAddress : Type 0 where
  pub lines : List Text
  pub postcode : Option Text

pub record BrregFau : Type 0 where
  pub orgnr : Text
  pub registered_name : Text
  pub organisation_form : Text
  pub municipality_number : Option Text
  pub business_address : BrregAddress
  pub postal_address : BrregAddress
