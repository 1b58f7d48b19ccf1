-- ===== src/SslChannel/Fingerprint.antt =====
-- include/grlx/rpc/ssl_channel.hpp: fingerprints and the digests that they stand for.
use Prim.Native.Char.{Char, code}
use grlx_rpc.Prelude.{
  ℕ, zero, suc, ◌+◌, ◌*◌, ◌-◌, ◌/◌, ◌%◌, ◌<◌, ◌≡◌, refl, ap, sym, ◌∙◌, String, some, List, [], ◌∷◌,
  arith, All, ltb, if◌then◌else◌,
}
use grlx_rpc.SslChannel.{hex_digit, hex, fingerprint_sha256}

-- The value of a digit.
digit_value : Char → ℕ
digit_value c = if ltb (code c) 58 then code c - 48 else code c - 87

digit_value-hex_digit : (n : ℕ) → n < 16 → digit_value (hex_digit n) ≡ n
unfolding digit_value
digit_value-hex_digit zero h = refl
digit_value-hex_digit (suc zero) h = refl
digit_value-hex_digit (suc (suc zero)) h = refl
digit_value-hex_digit (suc (suc (suc zero))) h = refl
digit_value-hex_digit (suc (suc (suc (suc zero)))) h = refl
digit_value-hex_digit (suc (suc (suc (suc (suc zero))))) h = refl
digit_value-hex_digit (suc (suc (suc (suc (suc (suc zero)))))) h = refl
digit_value-hex_digit (suc (suc (suc (suc (suc (suc (suc zero))))))) h = refl
digit_value-hex_digit (suc (suc (suc (suc (suc (suc (suc (suc zero)))))))) h = refl
digit_value-hex_digit (suc (suc (suc (suc (suc (suc (suc (suc (suc zero))))))))) h = refl
digit_value-hex_digit (suc (suc (suc (suc (suc (suc (suc (suc (suc (suc zero)))))))))) h = refl
digit_value-hex_digit (suc (suc (suc (suc (suc (suc (suc (suc (suc (suc (suc zero))))))))))) h =
    refl
digit_value-hex_digit (suc (suc (suc (suc (suc (suc (suc (suc (suc (suc (suc (suc zero))))))))))))
      h =
    refl
digit_value-hex_digit
      (suc (suc (suc (suc (suc (suc (suc (suc (suc (suc (suc (suc (suc zero))))))))))))) h =
    refl
digit_value-hex_digit
      (suc (suc (suc (suc (suc (suc (suc (suc (suc (suc (suc (suc (suc (suc zero)))))))))))))) h =
    refl
digit_value-hex_digit
      (suc (suc (suc (suc (suc (suc (suc (suc (suc (suc (suc (suc (suc (suc (suc zero)))))))))))))))
      h =
    refl
digit_value-hex_digit
      (suc
        (suc (suc (suc (suc (suc (suc (suc (suc (suc (suc (suc (suc (suc (suc (suc n))))))))))))))))
      h =
    ground arith

-- The bytes of a text of digits.
unhex : String → List ℕ
unfolding digit_value
unhex (String.◌∷◌ high (String.◌∷◌ low rest)) =
    (digit_value high * 16 + digit_value low) ∷ unhex rest
unhex text = []

unhex-hex : (digest : List ℕ) → All (λ b. b < 256) digest → unhex (hex digest) ≡ digest
unfolding unhex hex
unhex-hex [] bytes = refl
unhex-hex (b ∷ bs) bytes = ground (
  arith,
  digit_value-hex_digit (b / 16) (omega arith),
  digit_value-hex_digit (b % 16) (omega arith),
  unhex-hex bs bytes.1,
)

-- Two certificates with digests of bytes have the same fingerprint only if they have the same digest.
pub fingerprint_sha256_injective :
    (a b : List ℕ)
    → All (λ x. x < 256) a
    → All (λ x. x < 256) b
    → fingerprint_sha256 (some (some a)) ≡ fingerprint_sha256 (some (some b))
    → a ≡ b
unfolding fingerprint_sha256
fingerprint_sha256_injective a b is_a is_b e =
    sym (unhex-hex a is_a) ∙ ap unhex e ∙ unhex-hex b is_b
