-- ===== src/Hash/Portable.antt =====
-- The two readings of `char`: which names have one identifier on every platform.
use grlx_rpc.Prelude.{ℕ, ◌^◌, ◌≤◌, ◌<◌, ◌≡◌, ◌≢◌, refl, ap, sym, ◌∙◌, List, [], ◌∷◌, ◌++◌, arith}
use grlx_rpc.Hash.{fnv64, signed, unsigned, widen, mix, shash64, AreBytes}
use grlx_rpc.Hash.Forms.{fold_mix, fold_mix-lt, shash64_lem}
use grlx_rpc.Hash.Collide.{mix-lt, mix_inj_byte, fold_mix_inj, split_at}

abbrev pub IsAscii : List ℕ → Type 0
IsAscii [] = Unit
IsAscii (c ∷ cs) = (c < 128) × IsAscii cs

IsAscii-AreBytes : (cs : List ℕ) → IsAscii cs → AreBytes cs
IsAscii-AreBytes [] h = tt
IsAscii-AreBytes (c ∷ cs) h = (omega arith, IsAscii-AreBytes cs h.1)

mix_ascii : (v c : ℕ) → c < 128 → mix fnv64 signed v c ≡ mix fnv64 unsigned v c
unfolding mix
mix_ascii v c h = ground arith

fold_mix_ascii :
    (cs : List ℕ) (v : ℕ) → IsAscii cs → fold_mix fnv64 signed v cs ≡ fold_mix fnv64 unsigned v cs
fold_mix_ascii [] v h = refl
fold_mix_ascii (c ∷ cs) v h =
    ap (λ w. fold_mix fnv64 signed w cs) (mix_ascii v c h.0)
    ∙ fold_mix_ascii cs (mix fnv64 unsigned v c) h.1

-- An ASCII name has one identifier, whether the platform's `char` is signed or not.
pub shash64_ascii : (name : List ℕ) → IsAscii name → shash64 signed name ≡ shash64 unsigned name
shash64_ascii name h =
    shash64_lem signed name ∙ fold_mix_ascii name fnv64.basis h ∙ sym (shash64_lem unsigned name)

widen_apart : (c : ℕ) → 128 ≤ c → c < 256 → widen signed (2 ^ 64) c ≢ widen unsigned (2 ^ 64) c
widen_apart c lo hi e = ground arith

-- A name with one byte from 128 to 255 among ASCII bytes has two identifiers: a platform with a
-- signed `char` and one with an unsigned `char` look for different methods.
pub shash64_not_portable :
    (p q : List ℕ) (c : ℕ)
    → IsAscii p
    → IsAscii q
    → 128 ≤ c
    → c < 256
    → shash64 signed (p ++ c ∷ q) ≢ shash64 unsigned (p ++ c ∷ q)
shash64_not_portable p q c hp hq lo hi e =
    let v = fold_mix fnv64 unsigned fnv64.basis p in
    let hv = fold_mix-lt unsigned p fnv64.basis (omega arith) in
    let left = mix fnv64 signed v c in
    let right = mix fnv64 unsigned v c in
    widen_apart c lo hi (
      mix_inj_byte signed unsigned v c c hv hi hi (
        fold_mix_inj unsigned q left right (IsAscii-AreBytes q hq) (mix-lt signed v c)
          (mix-lt unsigned v c)
          (sym (fold_mix_ascii q left hq)
            ∙ ap (λ w. fold_mix fnv64 signed (mix fnv64 signed w c) q)
                (sym (fold_mix_ascii p fnv64.basis hp))
            ∙ sym (split_at signed p q c)
            ∙ e
            ∙ split_at unsigned p q c)))
