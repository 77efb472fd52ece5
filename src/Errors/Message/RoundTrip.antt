-- ===== src/Errors/Message/RoundTrip.antt =====
-- The format that parseCantonErrorString (errors.ts) reads.
use cantontrace.Base.{◌≡◌, ◌≢◌, refl, [], ◌∷◌, ◌++◌, some, true, Str, All}
use cantontrace.Runtime.Object.{is_digit}
use cantontrace.Runtime.Text.{some_of-append}
use cantontrace.Errors.Message.{
  ParsedCantonError, one_of, in_code, in_prefix, trim, parse_canton_error_string,
}

-- ERROR_CODE_ID(CATEGORY_ID,CORRELATION_ID_PREFIX):HUMAN_READABLE_MESSAGE
abbrev pub format : ParsedCantonError → Str
format e =
    e.error_code_id
    ++ b'('
      ∷ (e.category_id
          ++ b',' ∷ (e.correlation_id_prefix ++ b')' ∷ b':' ∷ e.human_readable_message))

-- No part but the message is empty, and each is of its own characters.
pub record IsFormattable (e : ParsedCantonError) : Type 0 where
  pub code : (e.error_code_id ≢ []) × All (λ c. in_code c ≡ true) e.error_code_id
  pub category : (e.category_id ≢ []) × All (λ c. is_digit c ≡ true) e.category_id
  pub prefix :
      (e.correlation_id_prefix ≢ []) × All (λ c. in_prefix c ≡ true) e.correlation_id_prefix

-- An error in Canton's format is read back: its code, category id and prefix as they are, and its
-- message without the white space around it. The three parts are not empty, and each is made of the
-- characters that the pattern allows it.
pub parse_canton_error_string-format :
    (e : ParsedCantonError)
    → IsFormattable e
    → parse_canton_error_string (format e)
      ≡ some (record e { human_readable_message = trim e.human_readable_message })
unfolding parse_canton_error_string one_of
parse_canton_error_string-format e h =
    rw
      (
        parse_canton_error_string,
        some_of-append in_code e.error_code_id _ b'(' h.code refl,
        some_of-append is_digit e.category_id _ b',' h.category refl,
        some_of-append in_prefix e.correlation_id_prefix _ b')' h.prefix refl,
      )
      refl
