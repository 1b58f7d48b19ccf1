-- ===== src/Hash/Bits.antt =====
-- `^` of C++ on numbers of any width: one equation for the lowest digit, bounds and cancellation.
use Prim.Native.Nat.{digits, differ, bit_xor-bitwise}
use native.Mathlib.Nat.{pow-suc}
use grlx_rpc.Prelude.{
  ℕ, zero, suc, ◌+◌, ◌-◌, ◌*◌, ◌/◌, ◌%◌, ◌^◌, ◌≤◌, ◌<◌, bit_xor, ◌≡◌, refl, ap, sym, ◌∙◌, arith,
}

abbrev xor_digits : ℕ → ℕ → ℕ → ℕ
xor_digits = digits (λ y. y) differ

-- One digit more than the number has changes nothing, and so does any count of them.
spare_digit : (n a b : ℕ) → a ≤ n → xor_digits (suc n) a b ≡ xor_digits n a b
spare_digit zero zero b h = refl
spare_digit zero (suc a) b h = absurd (omega arith)
spare_digit (suc n) zero b h = refl
spare_digit (suc n) (suc a) b h =
    ap (λ t. t * 2 + differ (suc a % 2) (b % 2)) (spare_digit n (suc a / 2) (b / 2) (omega arith))

spare_digits : (k n a b : ℕ) → n ≡ k + a → xor_digits n a b ≡ xor_digits a a b
spare_digits zero n a b e = let same : n ≡ a = omega arith in rw same
spare_digits (suc k) n a b e =
    let more : n ≡ suc (k + a) = omega arith in
    rw more (spare_digit (k + a) a b (omega arith) ∙ spare_digits k (k + a) a b refl)

bit_xor-suc :
    (a b : ℕ) → bit_xor (suc a) b ≡ bit_xor (suc a / 2) (b / 2) * 2 + differ (suc a % 2) (b % 2)
bit_xor-suc a b =
    bit_xor-bitwise (suc a) b
    ∙ ap (λ t. t * 2 + differ (suc a % 2) (b % 2))
        (spare_digits (a - suc a / 2) a (suc a / 2) (b / 2) (omega arith)
          ∙ sym (bit_xor-bitwise (suc a / 2) (b / 2)))

differ_bits : (a b : ℕ) → a < 2 → b < 2 → differ a b ≡ (a + b) % 2
differ_bits zero zero h k = refl
differ_bits zero (suc zero) h k = refl
differ_bits (suc zero) zero h k = refl
differ_bits (suc zero) (suc zero) h k = refl
differ_bits (suc (suc a)) b h k = absurd (omega arith)
differ_bits a (suc (suc b)) h k = absurd (omega arith)

pub bit_xor_step : (a b : ℕ) → bit_xor a b ≡ bit_xor (a / 2) (b / 2) * 2 + (a % 2 + b % 2) % 2
bit_xor_step zero b = simp bit_xor-bitwise (omega arith)
bit_xor_step (suc a) b =
    omega (arith, bit_xor-suc a b, differ_bits (suc a % 2) (b % 2) (omega arith) (omega arith))

-- Two words of `k` bits give one of `k` bits.
pub bit_xor-lt : (k a b : ℕ) → a < 2 ^ k → b < 2 ^ k → bit_xor a b < 2 ^ k
bit_xor-lt zero zero zero h l = omega arith
bit_xor-lt zero (suc a) b h l = absurd (omega arith)
bit_xor-lt zero a (suc b) h l = absurd (omega arith)
bit_xor-lt (suc k) a b h l = omega (
  arith,
  bit_xor_step a b,
  pow-suc 2 k,
  bit_xor-lt k (a / 2) (b / 2) (omega (arith, pow-suc 2 k)) (omega (arith, pow-suc 2 k)),
)

cancel_fuel : (n a b c : ℕ) → b ≤ n → c ≤ n → bit_xor a b ≡ bit_xor a c → b ≡ c
cancel_fuel zero a b c h l e = omega arith
cancel_fuel (suc n) a b c h l e = omega (
  arith,
  bit_xor_step a b,
  bit_xor_step a c,
  cancel_fuel n (a / 2) (b / 2) (c / 2) (omega arith) (omega arith)
      (omega (arith, bit_xor_step a b, bit_xor_step a c)),
)

pub bit_xor_cancel_left : (a b c : ℕ) → bit_xor a b ≡ bit_xor a c → b ≡ c
bit_xor_cancel_left a b c e = cancel_fuel (b + c) a b c (omega arith) (omega arith) e

comm_fuel : (n a b : ℕ) → a ≤ n → b ≤ n → bit_xor a b ≡ bit_xor b a
comm_fuel zero zero zero h l = refl
comm_fuel zero (suc a) b h l = absurd (omega arith)
comm_fuel zero a (suc b) h l = absurd (omega arith)
comm_fuel (suc n) a b h l = omega (
  arith,
  bit_xor_step a b,
  bit_xor_step b a,
  comm_fuel n (a / 2) (b / 2) (omega arith) (omega arith),
)

pub bit_xor_comm : (a b : ℕ) → bit_xor a b ≡ bit_xor b a
bit_xor_comm a b = comm_fuel (a + b) a b (omega arith) (omega arith)

pub bit_xor_cancel_right : (a b c : ℕ) → bit_xor a c ≡ bit_xor b c → a ≡ b
bit_xor_cancel_right a b c e =
    bit_xor_cancel_left c a b (omega (arith, bit_xor_comm a c, bit_xor_comm b c))
