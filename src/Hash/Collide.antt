-- ===== src/Hash/Collide.antt =====
-- Two names that differ in one byte never share an identifier: every round is injective, in the
-- value and in the byte, since the prime has an inverse modulo 2 ^ 64.
use grlx_rpc.Prelude.{
  ℕ, ◌*◌, ◌%◌, ◌^◌, ◌<◌, bit_xor, ◌≡◌, ◌≢◌, ap, sym, ◌∙◌, List, [], ◌∷◌, ◌++◌, arith,
}
use grlx_rpc.Hash.{fnv64, CharSign, signed, unsigned, widen, mix, shash64, AreBytes}
use grlx_rpc.Hash.Bits.{bit_xor-lt, bit_xor_cancel_left, bit_xor_cancel_right}
use grlx_rpc.Hash.Forms.{fold_mix, fold_mix-append, fold_mix-lt, shash64_lem}

prime_inverse :
    (x : ℕ) → x < 2 ^ 64 → x * 1099511628211 % 2 ^ 64 * 14886173955864302971 % 2 ^ 64 ≡ x
prime_inverse x h = omega arith

mul-prime_inj :
    (x y : ℕ)
    → x < 2 ^ 64
    → y < 2 ^ 64
    → x * 1099511628211 % 2 ^ 64 ≡ y * 1099511628211 % 2 ^ 64
    → x ≡ y
mul-prime_inj x y h l e =
    sym (prime_inverse x h) ∙ ap (λ t. t * 14886173955864302971 % 2 ^ 64) e ∙ prime_inverse y l

widen-lt : (s : CharSign) (c : ℕ) → c < 256 → widen s (2 ^ 64) c < 2 ^ 64
widen-lt signed c h = ground arith
widen-lt unsigned c h = omega arith

widen_inj :
    (s : CharSign) (c d : ℕ) → c < 256 → d < 256 → widen s (2 ^ 64) c ≡ widen s (2 ^ 64) d → c ≡ d
widen_inj signed c d h l e = ground arith
widen_inj unsigned c d h l e = e

pub mix-lt : (s : CharSign) (v c : ℕ) → mix fnv64 s v c < 2 ^ 64
unfolding mix
mix-lt s v c = omega arith

mix_inj_value :
    (s : CharSign) (v w c : ℕ)
    → v < 2 ^ 64
    → w < 2 ^ 64
    → c < 256
    → mix fnv64 s v c ≡ mix fnv64 s w c
    → v ≡ w
unfolding mix
mix_inj_value s v w c hv hw hc e =
    let k = widen s (2 ^ 64) c in
    let fits = widen-lt s c hc in
    bit_xor_cancel_right v w k (
      mul-prime_inj (bit_xor v k) (bit_xor w k) (bit_xor-lt 64 v k hv fits)
        (bit_xor-lt 64 w k hw fits) e)

-- Bytes that two platforms may read in different ways give the same round only if they are
-- widened to the same word.
pub mix_inj_byte :
    (s t : CharSign) (v c d : ℕ)
    → v < 2 ^ 64
    → c < 256
    → d < 256
    → mix fnv64 s v c ≡ mix fnv64 t v d
    → widen s (2 ^ 64) c ≡ widen t (2 ^ 64) d
unfolding mix
mix_inj_byte s t v c d hv hc hd e =
    let j = widen s (2 ^ 64) c in
    let k = widen t (2 ^ 64) d in
    bit_xor_cancel_left v j k (
      mul-prime_inj (bit_xor v j) (bit_xor v k) (bit_xor-lt 64 v j hv (widen-lt s c hc))
        (bit_xor-lt 64 v k hv (widen-lt t d hd)) e)

pub fold_mix_inj :
    (s : CharSign) (cs : List ℕ) (v w : ℕ)
    → AreBytes cs
    → v < 2 ^ 64
    → w < 2 ^ 64
    → fold_mix fnv64 s v cs ≡ fold_mix fnv64 s w cs
    → v ≡ w
fold_mix_inj s [] v w b hv hw e = e
fold_mix_inj s (c ∷ cs) v w b hv hw e =
    mix_inj_value s v w c hv hw b.0
      (fold_mix_inj s cs (mix fnv64 s v c) (mix fnv64 s w c) b.1 (mix-lt s v c) (mix-lt s w c) e)

pub split_at :
    (s : CharSign) (p q : List ℕ) (c : ℕ)
    → shash64 s (p ++ c ∷ q) ≡ fold_mix fnv64 s (mix fnv64 s (fold_mix fnv64 s fnv64.basis p) c) q
split_at s p q c = shash64_lem s (p ++ c ∷ q) ∙ fold_mix-append fnv64 s p (c ∷ q) fnv64.basis

-- Two method names of bytes that differ in exactly one position have different identifiers.
pub shash64_one_byte :
    (s : CharSign) (p q : List ℕ) (c d : ℕ)
    → AreBytes q
    → c < 256
    → d < 256
    → c ≢ d
    → shash64 s (p ++ c ∷ q) ≢ shash64 s (p ++ d ∷ q)
shash64_one_byte s p q c d b hc hd ne e =
    let v = fold_mix fnv64 s fnv64.basis p in
    let hv = fold_mix-lt s p fnv64.basis (omega arith) in
    ne (
      widen_inj s c d hc hd (
        mix_inj_byte s s v c d hv hc hd (
          fold_mix_inj s q (mix fnv64 s v c) (mix fnv64 s v d) b (mix-lt s v c) (mix-lt s v d)
            (sym (split_at s p q c) ∙ e ∙ split_at s p q d))))
