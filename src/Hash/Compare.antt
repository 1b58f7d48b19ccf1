-- ===== src/Hash/Compare.antt =====
-- include/grlx/rpc/string_hash.hpp: the literals, the comparison operators and `std::hash`, on values.
use grlx_rpc.Prelude.{
  ℕ, ◌^◌, ◌%◌, ◌≡◌, ◌⊎◌, refl, sym, ap, ◌∙◌, Bool, true, false, not, Option, some, List, length,
  ltb, nat_eq, ◌==◌, nat_beq_iff, arith,
}
use grlx_rpc.Hash.{CharSign, fnv32, fnv64, hash, shash64}
use grlx_rpc.Hash.Forms.{shash64_lem, shash64-lt, hash-length}

-- `operator""_sh32` and `operator""_sh64`, with the characters and the length of the literal.
unfoldable pub literal_sh32 : CharSign → List ℕ → ℕ → Option ℕ
literal_sh32 s str len = hash fnv32 s (some str) len

unfoldable pub literal_sh64 : CharSign → List ℕ → ℕ → Option ℕ
literal_sh64 s str len = hash fnv64 s (some str) len

-- The operators `==`, `!=`, `>` and `<`.
unfoldable pub is_equal : ℕ → ℕ → Bool
is_equal lhs rhs = lhs == rhs

unfoldable pub is_not_equal : ℕ → ℕ → Bool
is_not_equal lhs rhs = not (lhs == rhs)

unfoldable pub is_greater : ℕ → ℕ → Bool
is_greater lhs rhs = ltb rhs lhs

unfoldable pub is_less : ℕ → ℕ → Bool
is_less lhs rhs = ltb lhs rhs

-- `std::hash`, on a platform whose `size_t` has so many bits.
unfoldable pub std_hash : ℕ → ℕ → ℕ
std_hash bits value = value % 2 ^ bits

-- A name in the program's text and the same name at run time have one 64-bit identifier, and with a 64-bit `size_t`
-- `std::hash` is that identifier.
pub literal_sh64-shash64 :
    (s : CharSign) (name : List ℕ)
    → (literal_sh64 s name (length name) ≡ some (shash64 s name))
      × (std_hash 64 (shash64 s name) ≡ shash64 s name)
unfolding literal_sh64 std_hash
literal_sh64-shash64 s name = (
  hash-length fnv64 s name ∙ ap some (sym (shash64_lem s name)),
  omega (arith, shash64-lt s name),
)

-- The operators are one strict order: exactly one of `<`, `==` and `>` holds, `!=` is the opposite of `==`, `<` composes,
-- and identifiers that are `==` have one `std::hash`.
pub comparison_lem :
    (a b c : ℕ)
    → ((is_less a b ≡ true) ⊎ ((is_equal a b ≡ true) ⊎ (is_greater a b ≡ true)))
      × (is_less a b ≡ true → (is_equal a b ≡ false) × (is_greater a b ≡ false))
      × (is_equal a b ≡ true
          → (is_greater a b ≡ false) × ((bits : ℕ) → std_hash bits a ≡ std_hash bits b))
      × (is_not_equal a b ≡ not (is_equal a b))
      × (is_less a b ≡ true → is_less b c ≡ true → is_less a c ≡ true)
unfolding is_less is_equal is_greater is_not_equal std_hash
comparison_lem a b c = (
  ground arith,
  ground arith,
  λ e. (ground arith, λ bits. ap (λ (x : ℕ). x % 2 ^ bits) ((nat_beq_iff a b).0 e)),
  refl,
  ground arith,
)
