-- ===== src/Encoder/Samples.antt =====
-- A little-endian host.
use grlx_rpc.Prelude.{◌≡◌, refl, ap, ◌∙◌, ℕ, true, [], ◌∷◌, ◌++◌, arith, length, length-append}
use grlx_rpc.Buffer.{Buffer}
use grlx_rpc.Encoder.{Host}

abbrev pub reverse : Buffer → Buffer
reverse [] = []
reverse (b ∷ bs) = reverse bs ++ b ∷ []

reverse_append : (b : ℕ) (bs : Buffer) → reverse (bs ++ b ∷ []) ≡ b ∷ reverse bs
reverse_append b [] = refl
reverse_append b (c ∷ bs) = ap (λ r. r ++ c ∷ []) (reverse_append b bs)

pub reverse_twice : (b : Buffer) → reverse (reverse b) ≡ b
reverse_twice [] = refl
reverse_twice (b ∷ bs) = reverse_append b (reverse bs) ∙ ap (λ r. b ∷ r) (reverse_twice bs)

pub length-reverse : (b : Buffer) → length (reverse b) ≡ length b
length-reverse [] = refl
length-reverse (b ∷ bs) = omega (arith, length-append (reverse bs) (b ∷ []), length-reverse bs)

abbrev pub desktop : Host
desktop = record {
  is_little_endian = true;
  swap_bytes = reverse;
  swap_bytes_twice = reverse_twice;
  length-swap_bytes = length-reverse;
}
