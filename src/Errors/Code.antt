-- ===== src/Errors/Code.antt =====
-- nodejs/common/errors/ErrorMessage.ts: the class `ErrorMessage`. The static fields are read after
-- the module has loaded, when every constant is registered.
pub mod Laws
use Prim.Native.Nat.{max}
use Prim.Native.String.{◌++◌, len}
use text.Mathlib.Text.{◌==◌}
use mathlib.Core.List.{foldr}
use typedb_client_java.Prelude.{
  ℕ, zero, suc, ◌-◌, ◌/◌, ◌%◌, ◌≡◌, refl, String, List, [], ◌∷◌, Option, some, none, get_or, ltb,
  if◌then◌else◌,
}
use typedb_client_java.Errors.Templates.{
  Driver, ErrorMessage, driver, concept, query, internal, driver_number, concept_number,
  query_number, internal_number, driver_body, concept_body, query_body, internal_body, all_messages,
}

-- Decimal digits, as `String(n)` gives them.
show_digit : ℕ → String
show_digit n = get_or ("0" ∷ "1" ∷ "2" ∷ "3" ∷ "4" ∷ "5" ∷ "6" ∷ "7" ∷ "8" ∷ []) n "9"

show_from : ℕ → ℕ → String → String
unfolding show_digit
show_from zero n acc = acc
show_from (suc fuel) n acc =
    let longer = show_from fuel (n / 10) (show_digit (n % 10) ++ acc) in
    if ltb n 10 then show_digit n ++ acc else longer

-- `suc n` rounds are enough: every round divides by ten.
unfoldable pub show : ℕ → String
unfolding show_from
show n = show_from (suc n) n ""

-- The fields that the four subclasses pass to the constructor.
unfoldable pub code_prefix : ErrorMessage → String
code_prefix (driver _) = "NDR"
code_prefix (concept _) = "NCO"
code_prefix (query _) = "NQR"
code_prefix (internal _) = "NIN"

unfoldable pub code_number : ErrorMessage → ℕ
code_number (driver e) = driver_number e
code_number (concept e) = concept_number e
code_number (query e) = query_number e
code_number (internal e) = internal_number e

unfoldable pub message_prefix : ErrorMessage → String
message_prefix (driver _) = "Driver Error"
message_prefix (concept _) = "Concept Error"
message_prefix (query _) = "Query Error"
message_prefix (internal _) = "Internal Error"

unfoldable pub message_body : ErrorMessage → List String → String
unfolding driver_body concept_body query_body internal_body
message_body (driver e) args = driver_body e args
message_body (concept e) args = concept_body e args
message_body (query e) args = query_body e args
message_body (internal e) args = internal_body e args

-- The static `maxCodeNumber` and `maxCodeDigits` once every constant has been constructed.
max_code_number : ℕ
unfolding code_number
max_code_number = foldr (λ e m. max m (code_number e)) 0 all_messages

max_code_digits : ℕ
unfolding max_code_number show
max_code_digits = len (show max_code_number)

-- The loop of `code`: zeros are added while `length < maxCodeDigits`. `rounds` is the difference.
zeros_from : ℕ → String → String
zeros_from zero zeros = zeros
zeros_from (suc rounds) zeros = zeros_from rounds (zeros ++ "0")

-- `code()`. It runs while `this._code` is not set, and measures `String(this._code)`, which is then
-- the text "undefined".
unfoldable pub code : ErrorMessage → String
unfolding code_prefix code_number zeros_from max_code_digits show
code e =
    code_prefix e ++ (zeros_from (max_code_digits - len "undefined") "" ++ show (code_number e))

-- `message(...args)` and `toString()`.
unfoldable pub message : ErrorMessage → List String → String
unfolding code message_prefix message_body
message e args = "[" ++ (code e ++ ("] " ++ (message_prefix e ++ (": " ++ message_body e args))))

unfoldable pub to_string : ErrorMessage → String
unfolding message
to_string e = message e []

-- The first constant with a given code.
with_code : String → List ErrorMessage → Option ErrorMessage
with_code c [] = none
with_code c (e ∷ es) = if code e == c then some e else with_code c es

unfoldable pub find_code : String → Option ErrorMessage
unfolding with_code
find_code c = with_code c all_messages

test_code : code (driver Driver.unable_to_connect) ≡ "NDR7"
unfolding code
test_code = refl
