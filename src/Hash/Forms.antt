-- ===== src/Hash/Forms.antt =====
-- The forms of the hash agree: a call by size is a fold of `mix` over the name, and a call on a
-- NUL-terminated name stops at the same value.
use mathlib.Core.List.{append-nil}
use grlx_rpc.Prelude.{ℕ, ◌^◌, ◌<◌, ◌≡◌, refl, ap, some, List, [], ◌∷◌, ◌++◌, arith, length, nat_eq}
use grlx_rpc.Hash.{
  Fnv, fnv64, CharSign, mix, str_hash_impl, hash_impl, string_hash, hash, or_zero, shash64,
}

-- The reference: one round for each byte.
abbrev pub fold_mix : Fnv → CharSign → ℕ → List ℕ → ℕ
fold_mix f s value [] = value
fold_mix f s value (c ∷ cs) = fold_mix f s (mix f s value c) cs

pub hash_impl_lem :
    (f : Fnv) (s : CharSign) (cs rest : List ℕ) (value : ℕ)
    → hash_impl f s (cs ++ rest) (length cs) value ≡ some (fold_mix f s value cs)
unfolding hash_impl
hash_impl_lem f s [] rest value = refl
hash_impl_lem f s (c ∷ cs) rest value = hash_impl_lem f s cs rest (mix f s value c)

abbrev pub HasNoNul : List ℕ → Type 0
HasNoNul [] = Unit
HasNoNul (c ∷ cs) = (0 < c) × HasNoNul cs

str_hash_impl_lem :
    (f : Fnv) (s : CharSign) (cs rest : List ℕ) (value : ℕ)
    → HasNoNul cs
    → str_hash_impl f s (cs ++ 0 ∷ rest) value ≡ some (fold_mix f s value cs)
unfolding str_hash_impl
str_hash_impl_lem f s [] rest value h = refl
str_hash_impl_lem f s (c ∷ cs) rest value h =
    ground (arith, str_hash_impl_lem f s cs rest (mix f s value c) h.1)

-- A name without a NUL byte, which a NUL follows in memory, has one hash: `string_hash` on the
-- C string and `hash` with the length of the name read the same bytes and return the same number,
-- whatever else follows, at either width and for either kind of `char`.
pub string_hash-eq-hash :
    (f : Fnv) (s : CharSign) (name rest : List ℕ)
    → HasNoNul name
    → (string_hash f s (some (name ++ 0 ∷ rest)) ≡ some (fold_mix f s f.basis name))
      × (hash f s (some (name ++ 0 ∷ rest)) (length name) ≡ some (fold_mix f s f.basis name))
unfolding string_hash hash
string_hash-eq-hash f s name rest h =
    (str_hash_impl_lem f s name rest f.basis h, hash_impl_lem f s name (0 ∷ rest) f.basis)

pub hash-length :
    (f : Fnv) (s : CharSign) (name : List ℕ)
    → hash f s (some name) (length name) ≡ some (fold_mix f s f.basis name)
unfolding hash
hash-length f s name = rw (append-nil name) at (hash_impl_lem f s name [] f.basis)

pub shash64_lem :
    (s : CharSign) (name : List ℕ) → shash64 s name ≡ fold_mix fnv64 s fnv64.basis name
unfolding shash64
shash64_lem s name = ap or_zero (hash-length fnv64 s name)

pub fold_mix-append :
    (f : Fnv) (s : CharSign) (xs ys : List ℕ) (value : ℕ)
    → fold_mix f s value (xs ++ ys) ≡ fold_mix f s (fold_mix f s value xs) ys
fold_mix-append f s [] ys value = refl
fold_mix-append f s (x ∷ xs) ys value = fold_mix-append f s xs ys (mix f s value x)

pub fold_mix-lt :
    (s : CharSign) (cs : List ℕ) (value : ℕ) → value < 2 ^ 64 → fold_mix fnv64 s value cs < 2 ^ 64
unfolding mix
fold_mix-lt s [] value h = h
fold_mix-lt s (c ∷ cs) value h = fold_mix-lt s cs (mix fnv64 s value c) (omega arith)

-- The identifier of a method fits the 64 bits of the header's field.
pub shash64-lt : (s : CharSign) (name : List ℕ) → shash64 s name < 2 ^ 64
shash64-lt s name = rw (shash64_lem s name) (fold_mix-lt s name fnv64.basis (omega arith))
