-- ===== src/Text.antt =====
-- Rust's `str` as the list of its code points, and the methods of `str` and `char` that the code
-- calls. `char::is_whitespace` is Unicode's White_Space, `char::is_control` its category Cc. What
-- rests on larger Unicode tables is a parameter, the record `Unicode`.
mod Trim
mod Splitting
mod Literals
mod Order
unfoldable pub use Trim.*
unfoldable pub use Splitting.*
pub use Literals.*
unfoldable pub use Order.*
use fau_portalen.Prelude.{ℕ, Bool, List}
use Trim.{Text}

-- `str::to_lowercase`, `char::is_alphanumeric`, and of the crate `unicode_normalization` the methods
-- `nfc` and `nfkd` and the test `is_combining_mark`.
pub record Unicode : Type 0 where
  pub to_lowercase : Text → Text
  pub is_alphanumeric : ℕ → Bool
  pub nfc : Text → Text
  pub nfkd : Text → Text
  pub is_combining_mark : ℕ → Bool
