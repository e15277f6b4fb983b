-- ===== src/Concept/Bytes.antt =====
-- nodejs/common/util/Bytes.ts. A `Uint8Array` is the list of its bytes; Node's `Buffer` is a parameter.
use Prim.Native.Char.{Char, code}
use Prim.Native.String.{◌++◌}
use text.Mathlib.TextLemmas.{nil-append, cons-append}
use typedb_client_java.Prelude.{
  ℕ, ◌*◌, ◌%◌, ◌<◌, String, List, Option, none, some, ◌&&◌, ◌==◌, ◌≡◌, ap, ◌∙◌, arith, length, All,
  if◌then◌else◌, suc,
}
use typedb_client_java.Errors.DriverError.{js}
use typedb_client_java.Effect.{Result, ok, err}

-- `s.length`, of a text of ASCII characters.
unfoldable pub text_length : String → ℕ
text_length String.[] = 0
text_length (String.◌∷◌ c s) = suc (text_length s)

-- `Buffer.from(bytes).toString('hex')`, `Buffer.from(text, 'hex')` and what they rely on.
pub record Hex : Type 0 where
  pub to_hex : List ℕ → String
  pub from_hex : String → List ℕ
  pub from_hex-to_hex : (bs : List ℕ) → All (λ b. b < 256) bs → from_hex (to_hex bs) ≡ bs
  pub text_length-to_hex : (bs : List ℕ) → text_length (to_hex bs) ≡ 2 * length bs

pub pair-append :
    (c d : Char) (s : String)
    → String.◌∷◌ c (String.◌∷◌ d String.[]) ++ s ≡ String.◌∷◌ c (String.◌∷◌ d s)
pair-append c d s =
    cons-append c (String.◌∷◌ d String.[]) s
    ∙ ap (String.◌∷◌ c) (cons-append d String.[] s ∙ ap (String.◌∷◌ d) (nil-append s))

module _ (hex : Hex) where
  unfoldable pub bytes_to_hex_string : List ℕ → String
  bytes_to_hex_string bs = "0x" ++ hex.to_hex bs

  -- The text after the prefix, where it starts with it.
  strip_prefix : String → Option String
  strip_prefix (String.◌∷◌ c (String.◌∷◌ d s)) =
      if code c == b'0' && code d == b'x' then some s else none
  strip_prefix _ = none

  decoded : String → Option String → Result (List ℕ)
  decoded s none = err (js ("Error: hexString does not start with '0x': " ++ s ++ "'"))
  decoded s (some digits) = ok (hex.from_hex digits)

  -- The error for a length that is not even, with the length as text.
  unfoldable pub hex_string_to_bytes : (ℕ → String) → String → Result (List ℕ)
  unfolding strip_prefix decoded text_length
  hex_string_to_bytes show s =
      if text_length s % 2 == 0
      then decoded s (strip_prefix s)
      else err (js ("Error: hexString length not divisible by 2: " ++ show (text_length s)))

  strip_prefix-append : (s : String) → strip_prefix ("0x" ++ s) ≡ some s
  unfolding strip_prefix
  strip_prefix-append s = ap strip_prefix (pair-append _ _ s)

  text_length-append : (s : String) → text_length ("0x" ++ s) ≡ suc (suc (text_length s))
  unfolding text_length
  text_length-append s = ap text_length (pair-append _ _ s)

  -- The bytes of an IID are read back from the text that the driver writes for them.
  pub hex_string_to_bytes-bytes_to_hex_string :
      (show : ℕ → String) (bs : List ℕ)
      → All (λ b. b < 256) bs
      → hex_string_to_bytes show (bytes_to_hex_string bs) ≡ ok bs
  unfolding hex_string_to_bytes bytes_to_hex_string decoded
  hex_string_to_bytes-bytes_to_hex_string show bs small = ground (
    arith,
    hex.text_length-to_hex bs,
    strip_prefix-append (hex.to_hex bs),
    text_length-append (hex.to_hex bs),
    hex.from_hex-to_hex bs small,
  )
