-- ===== src/Examples/Hexadecimal.antt =====
-- A hexadecimal codec, as Node's `Buffer` has one.
use Prim.Native.Char.{Char, code}
use typedb_client_java.Prelude.{
  ℕ, zero, suc, ◌+◌, ◌*◌, ◌/◌, ◌%◌, ◌<◌, ◌-◌, String, List, [], ◌∷◌, ltb, ◌≡◌, refl, arith, ap₂,
  length, get_or, All, if◌then◌else◌,
}
use typedb_client_java.Concept.Bytes.{Hex, text_length}

digits : List Char
digits =
    "0" ∷ "1" ∷ "2" ∷ "3" ∷ "4" ∷ "5" ∷ "6" ∷ "7" ∷ "8" ∷ "9" ∷ "a" ∷ "b" ∷ "c" ∷ "d" ∷ "e" ∷ "f"
    ∷ []

digit : ℕ → Char
unfolding digits
digit d = get_or digits d "0"

digit_value : Char → ℕ
digit_value c = if ltb (code c) b'a' then code c - b'0' else code c - 87

encode : List ℕ → String
unfolding digit
encode [] = String.[]
encode (b ∷ bs) = String.◌∷◌ (digit (b / 16)) (String.◌∷◌ (digit (b % 16)) (encode bs))

decode_hex : String → List ℕ
unfolding digit_value
decode_hex (String.◌∷◌ c (String.◌∷◌ d s)) = (16 * digit_value c + digit_value d) ∷ decode_hex s
decode_hex _ = []

digit_value-digit : (d : ℕ) → d < 16 → digit_value (digit d) ≡ d
unfolding digit_value digit digits
digit_value-digit zero h = refl
digit_value-digit (suc zero) h = refl
digit_value-digit (suc (suc zero)) h = refl
digit_value-digit (suc (suc (suc zero))) h = refl
digit_value-digit (suc (suc (suc (suc zero)))) h = refl
digit_value-digit (suc (suc (suc (suc (suc zero))))) h = refl
digit_value-digit (suc (suc (suc (suc (suc (suc zero)))))) h = refl
digit_value-digit (suc (suc (suc (suc (suc (suc (suc zero))))))) h = refl
digit_value-digit (suc (suc (suc (suc (suc (suc (suc (suc zero)))))))) h = refl
digit_value-digit (suc (suc (suc (suc (suc (suc (suc (suc (suc zero))))))))) h = refl
digit_value-digit (suc (suc (suc (suc (suc (suc (suc (suc (suc (suc zero)))))))))) h = refl
digit_value-digit (suc (suc (suc (suc (suc (suc (suc (suc (suc (suc (suc zero))))))))))) h = refl
digit_value-digit (suc (suc (suc (suc (suc (suc (suc (suc (suc (suc (suc (suc zero)))))))))))) h =
    refl
digit_value-digit (suc (suc (suc (suc (suc (suc (suc (suc (suc (suc (suc (suc (suc zero)))))))))))))
      h =
    refl
digit_value-digit
      (suc (suc (suc (suc (suc (suc (suc (suc (suc (suc (suc (suc (suc (suc zero)))))))))))))) h =
    refl
digit_value-digit
      (suc (suc (suc (suc (suc (suc (suc (suc (suc (suc (suc (suc (suc (suc (suc zero)))))))))))))))
      h =
    refl
digit_value-digit
      (suc
        (suc (suc (suc (suc (suc (suc (suc (suc (suc (suc (suc (suc (suc (suc (suc d))))))))))))))))
      h =
    omega (arith, h)

decode_hex-encode : (bs : List ℕ) → All (λ b. b < 256) bs → decode_hex (encode bs) ≡ bs
unfolding decode_hex encode
decode_hex-encode [] h = refl
decode_hex-encode (b ∷ bs) (h, hs) =
    let high = digit_value-digit (b / 16) (omega arith) in
    let low = digit_value-digit (b % 16) (omega arith) in
    ap₂ (λ c cs. c ∷ cs) (omega (arith, high, low)) (decode_hex-encode bs hs)

text_length-encode : (bs : List ℕ) → text_length (encode bs) ≡ 2 * length bs
unfolding encode text_length
text_length-encode [] = refl
text_length-encode (b ∷ bs) = omega (arith, text_length-encode bs)

pub buffer : Hex
buffer = record {
  to_hex = encode;
  from_hex = decode_hex;
  from_hex-to_hex = decode_hex-encode;
  text_length-to_hex = text_length-encode;
}
