-- ===== src/Hash.antt =====
-- include/grlx/rpc/string_hash.hpp: FNV-1a over the bytes of a method name, for 32 and 64 bits.
-- A `const char*` is the list of the bytes from the pointer on, and `none` a read past its end.
pub mod Bits
pub mod Forms
pub mod Compare
pub mod Collide
pub mod Portable
mod Examples
use Prim.Native.Nat.{◌<◌}
use grlx_rpc.Prelude.{
  ℕ, zero, suc, ◌+◌, ◌-◌, ◌*◌, ◌%◌, ◌^◌, bit_xor, Option, none, some, List, [], ◌∷◌, Bool, not,
  length, ltb, nat_eq, ◌==◌, if◌then◌else◌,
}

-- Whether the platform's `char` is signed, which C++ leaves to it.
pub data CharSign : Type 0 where
  signed unsigned : CharSign

-- `fnv_hash_values<H>`, with the modulus of H.
pub record Fnv : Type 0 where
  pub modulus : ℕ
  pub basis : ℕ
  pub prime : ℕ

abbrev pub fnv32 : Fnv
fnv32 = record { modulus = 2 ^ 32; basis = 2166136261; prime = 16777619 }

abbrev pub fnv64 : Fnv
fnv64 = record { modulus = 2 ^ 64; basis = 14695981039346656037; prime = 1099511628211 }

-- `static_cast<H>(c)` of a `char`: a negative one wraps around.
abbrev pub widen : CharSign → ℕ → ℕ → ℕ
widen unsigned m c = c
widen signed m c = if ltb c 128 then c else m - 256 + c

-- One round, `static_cast<H>(value ^ static_cast<H>(c)) * hash_prime`.
pub mix : Fnv → CharSign → ℕ → ℕ → ℕ
mix f s value c = bit_xor value (widen s f.modulus c) * f.prime % f.modulus

pub str_hash_impl : Fnv → CharSign → List ℕ → ℕ → Option ℕ
str_hash_impl f s [] value = none
str_hash_impl f s (c ∷ remain) value =
    let rest = str_hash_impl f s remain (mix f s value c) in if c == 0 then some value else rest

pub hash_impl : Fnv → CharSign → List ℕ → ℕ → ℕ → Option ℕ
hash_impl f s current zero value = some value
hash_impl f s [] (suc remain) value = none
hash_impl f s (c ∷ current) (suc remain) value = hash_impl f s current remain (mix f s value c)

-- A null pointer is `none`.
pub string_hash : Fnv → CharSign → Option (List ℕ) → Option ℕ
unfolding str_hash_impl
string_hash f s none = some 0
string_hash f s (some str) = str_hash_impl f s str f.basis

pub hash : Fnv → CharSign → Option (List ℕ) → ℕ → Option ℕ
unfolding hash_impl
hash f s none sz = some 0
hash f s (some p) sz = hash_impl f s p sz f.basis

or_zero : Option ℕ → ℕ
or_zero none = 0
or_zero (some h) = h

-- `shash64(name).value()` of a `std::string`: its data and its size.
unfoldable pub shash64 : CharSign → List ℕ → ℕ
unfolding hash or_zero hash_impl mix
shash64 s name = or_zero (hash fnv64 s (some name) (length name))

-- `is_valid` and `operator bool`.
unfoldable pub is_valid : ℕ → Bool
is_valid value = not (value == 0)

-- Every byte of the list is below 256.
abbrev pub AreBytes : List ℕ → Type 0
AreBytes [] = Unit
AreBytes (c ∷ cs) = (c < 256) × AreBytes cs
