-- ===== src/Errors/Message.antt =====
-- Canton's error strings: parseCantonErrorString in api-gateway/src/canton/errors.ts, whose pattern is
-- ^([A-Z_]+)\((\d+),([^)]+)\):(.*)$ with the flag s. No group can give back a character, because the
-- character that must follow it is never one of its own.
pub mod RoundTrip
use cantontrace.Base.{
  ◌>>=◌, ℕ, ◌+◌, ◌≡◌, List, [], ◌∷◌, ◌++◌, Option, none, some, Bool, true, false, ◌&&◌, ◌||◌, not,
  ◌==◌, leb, if◌then◌else◌, Str, ◌===◌, refl, any, all,
}
use cantontrace.Runtime.Object.{is_digit}
unfoldable pub use cantontrace.Runtime.Text.{
  span, some_of, one_of, is_space, trim_start, trim_end, trim,
}

pub record ParsedCantonError : Type 0 where
  pub error_code_id : Str
  pub category_id : Str
  pub correlation_id_prefix : Str
  pub human_readable_message : Str

-- The three classes of characters.
abbrev pub in_code : ℕ → Bool
in_code c = leb b'A' c && leb c b'Z' || c == b'_'

abbrev pub in_prefix : ℕ → Bool
in_prefix c = not (c == b')')

unfoldable pub parse_canton_error_string : Str → Option ParsedCantonError
parse_canton_error_string s = do
  code ← some_of in_code s
  t ← one_of b'(' code.1
  category ← some_of is_digit t
  u ← one_of b',' category.1
  prefix ← some_of in_prefix u
  v ← one_of b')' prefix.1
  message ← one_of b':' v
  some (record {
    error_code_id = code.0;
    category_id = category.0;
    correlation_id_prefix = prefix.0;
    human_readable_message = trim message;
  })
