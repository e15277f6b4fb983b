-- ===== src/Errors/Code/Laws.antt =====
-- The codes of nodejs/common/errors/ErrorMessage.ts.
use Prim.Native.String.{◌++◌}
use text.Mathlib.TextLemmas.{nil-append}
use typedb_client_java.Prelude.{◌≡◌, refl, ap, some}
use typedb_client_java.Errors.Templates.{
  Driver, Concept, Query, Internal, ErrorMessage, driver, concept, query, internal,
}
use typedb_client_java.Errors.Code.{code, code_prefix, code_number, show, find_code}

find_code-driver : (e : Driver) → find_code (code (driver e)) ≡ some (driver e)
unfolding find_code code
find_code-driver Driver.rpc_method_unavailable = refl
find_code-driver _ = refl

find_code-concept : (e : Concept) → find_code (code (concept e)) ≡ some (concept e)
unfolding find_code code
find_code-concept Concept.bad_encoding = refl
find_code-concept _ = refl

find_code-query : (e : Query) → find_code (code (query e)) ≡ some (query e)
unfolding find_code code
find_code-query Query.bad_answer_type = refl
find_code-query _ = refl

find_code-internal : (e : Internal) → find_code (code (internal e)) ≡ some (internal e)
unfolding find_code code
find_code-internal Internal.illegal_cast = refl
find_code-internal _ = refl

-- Looking a rendered code up in the catalogue gives back the constant that it was rendered from,
-- for every constant.
pub find_code-code : (e : ErrorMessage) → find_code (code e) ≡ some e
find_code-code (driver e) = find_code-driver e
find_code-code (concept e) = find_code-concept e
find_code-code (query e) = find_code-query e
find_code-code (internal e) = find_code-internal e

-- Two constants of the catalogue with the same rendered code are the same constant.
pub code_injective : (e f : ErrorMessage) → code e ≡ code f → e ≡ f
code_injective e f h = cc (find_code-code e, find_code-code f, ap find_code h)

-- No code is padded with zeros: it is the prefix followed by the decimal number.
pub code-unpadded : (e : ErrorMessage) → code e ≡ code_prefix e ++ show (code_number e)
unfolding code
code-unpadded e = ap (◌++◌ (code_prefix e)) (nil-append (show (code_number e)))
