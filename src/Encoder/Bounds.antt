-- ===== src/Encoder/Bounds.antt =====
-- include/grlx/rpc/encoder.hpp: the sizes of containers that a decoding hands out, over any tree of loads.
use grlx_rpc.Prelude.{
  ℕ, zero, suc, ◌+◌, ◌*◌, ◌^◌, ◌≤◌, ◌<◌, ◌≡◌, refl, true, List, [], ◌∷◌, arith, length,
  length-append, length-drop, take, drop, All, nat_eq,
}
use grlx_rpc.Buffer.{Buffer}
use grlx_rpc.Encoder.{
  Archive, Host, Result, ok, threw, Loads, finish, throws, pod, size_tag, binary_data, after, sgetn,
  swap_elements, load_binary, load_size, checked_size, remaining_bytes, measured, with_order,
  open_archive, unordered, ibufferstream, load, started, read_frame, decode,
}

length-take-drop :
    {A : Type 0} (n : ℕ) (xs : List A) → length (take n xs) + length (drop n xs) ≡ length xs
length-take-drop zero xs = omega arith
length-take-drop (suc n) [] = omega arith
length-take-drop (suc n) (x ∷ xs) = omega (arith, length-take-drop n xs)

-- The property of what a load returns, if it returns.
abbrev pub WhenOk {ℓ} : {A : Type 0} → (A → Type ℓ) → Result A → Type ℓ
WhenOk P (ok a) = P a
WhenOk P (threw e) = Unit

-- The archive is at position `pos` or further in a frame of `size` bytes that it has measured.
abbrev pub Within : ℕ → ℕ → Archive → Type 0
Within size pos ar =
    (ar.stream.pos + length ar.stream.rest ≡ size)
    × (ar.total ≡ size)
    × (ar.stream.seekable ≡ true)
    × (pos ≤ ar.stream.pos)

WhenOk-weaken :
    {A : Type 0} (P Q : A → Type 0) (r : Result A) → ((a : A) → P a → Q a) → WhenOk P r → WhenOk Q r
WhenOk-weaken P Q (ok a) f p = f a p
WhenOk-weaken P Q (threw e) f p = tt

after-All :
    {B A : Type 0} (P : ℕ → Type 0) (f : B → List ℕ × Result A) (Q : B → Type 0) (r : Result B)
    → ((b : B) → Q b → All P (f b).0)
    → WhenOk Q r
    → All P (after f r).0
unfolding after
after-All P f Q (threw e) all q = tt
after-All P f Q (ok b) all q = all b q

module _ (h : Host) where
  length-swap_elements :
      (w n : ℕ) (b : Buffer)
      → n * w ≤ length b
      → length (swap_elements h.swap_bytes w n b) ≡ length b
  unfolding swap_elements
  length-swap_elements w zero b le = refl
  length-swap_elements w (suc n) b le = ground (
    arith,
    length-append (h.swap_bytes (take w b)) (swap_elements h.swap_bytes w n (drop w b)),
    h.length-swap_bytes (take w b),
    length-take-drop w b,
    length-drop w b,
    length-swap_elements w n (drop w b),
  )

  load_binary-Within :
      (size pos w n : ℕ) (ar : Archive)
      → Within size pos ar
      → WhenOk (λ r. (length r.0 ≡ n * w) × Within size (pos + n * w) r.1) (load_binary h w n ar)
  unfolding load_binary sgetn
  load_binary-Within size pos w n ar fits = ground (
    arith,
    length-swap_elements w n (take (n * w) ar.stream.rest),
    length-take-drop (n * w) ar.stream.rest,
  )

  checked_size-Within :
      (size pos : ℕ) (r : Result (Buffer × Archive))
      → size + 64 < 2 ^ 64
      → 1 ≤ pos
      → WhenOk (λ s. Within size pos s.1) r
      → WhenOk (λ s. (s.0 + pos ≤ size + 64) × Within size pos s.1) (checked_size h r)
  unfolding checked_size remaining_bytes
  checked_size-Within size pos (threw e) small read fits = tt
  checked_size-Within size pos (ok r) small read fits = ground arith

  load_size-Within :
      (size pos : ℕ) (ar : Archive)
      → size + 64 < 2 ^ 64
      → Within size pos ar
      → WhenOk
          (λ r. (r.0 + (pos + 1 * 8) ≤ size + 64) × Within size (pos + 1 * 8) r.1)
          (load_size h ar)
  unfolding load_size
  load_size-Within size pos ar small fits =
      checked_size-Within size (pos + 1 * 8) (load_binary h 8 1 ar) small (omega arith) (
        WhenOk-weaken _ _ (load_binary h 8 1 ar) (λ s fits'. fits'.1)
          (load_binary-Within size pos 8 1 ar fits))

  -- Every size that an archive hands out leaves room for what was read before it.
  load-Bounded :
      {A : Type 0} (size pos : ℕ) (l : Loads A) (ar : Archive)
      → size + 64 < 2 ^ 64
      → Within size pos ar
      → All (λ n. n + (pos + 8) ≤ size + 64) (load h l ar).0
  unfolding load
  load-Bounded size pos (finish a) ar small fits = tt
  load-Bounded size pos (throws n) ar small fits = tt
  load-Bounded size pos (pod w k) ar small fits =
      after-All _ _ _ (load_binary h w 1 ar)
        (λ r fits'.
          load-Bounded size pos (k r.0) r.1 small (fits'.1.0, fits'.1.1, fits'.1.2, omega arith))
        (load_binary-Within size pos w 1 ar fits)
  load-Bounded size pos (size_tag k) ar small fits =
      after-All _ _ _ (load_size h ar)
        (λ r fits'. (
          omega arith,
          load-Bounded size pos (k r.0) r.1 small (fits'.1.0, fits'.1.1, fits'.1.2, omega arith),
        ))
        (load_size-Within size pos ar small fits)
  load-Bounded size pos (binary_data w n k) ar small fits =
      after-All _ _ _ (load_binary h w n ar)
        (λ r fits'.
          load-Bounded size pos (k r.0) r.1 small (fits'.1.0, fits'.1.1, fits'.1.2, omega arith))
        (load_binary-Within size pos w n ar fits)

  with_order-Within :
      (size : ℕ) (r : Result (Buffer × Archive))
      → WhenOk (λ s. (length s.0 ≡ 1 * 1) × Within size (0 + 1 * 1) s.1) r
      → WhenOk (Within size 1) (with_order h r)
  unfolding with_order
  with_order-Within size (threw e) fits = tt
  with_order-Within size (ok r) fits = (fits.1.0, fits.1.1, fits.1.2, omega arith)

  started-Bounded :
      {A : Type 0} (size : ℕ) (l : Loads A) (r : Result Archive)
      → size + 64 < 2 ^ 64
      → WhenOk (Within size 1) r
      → All (λ n. n + (1 + 8) ≤ size + 64) (started h l r).0
  unfolding started
  started-Bounded size l (threw e) small fits = tt
  started-Bounded size l (ok ar) small fits = load-Bounded size 1 l ar small fits

  open_archive-Within :
      (buffer : Buffer) → WhenOk (Within (length buffer) 1) (open_archive h (ibufferstream buffer))
  unfolding open_archive measured unordered
  open_archive-Within buffer =
      with_order-Within (length buffer) (load_binary h 1 1 (unordered h (ibufferstream buffer))) (
        load_binary-Within (length buffer) 0 1 1 (unordered h (ibufferstream buffer))
          (omega arith, omega arith, refl, omega arith))

  -- Whatever a type loads, and in whatever order, the sizes for which `decode` lets it make room are bounded by
  -- the frame that was received: at most 55 above its length (the slack of 64, less the byte order's byte and the
  -- size's own eight). The frame's length and the slack are below 2^64.
  pub decode-Bounded :
      {A : Type 0} (l : Loads A) (buffer : Buffer)
      → length buffer + 64 < 2 ^ 64
      → All (λ n. n + 9 ≤ length buffer + 64) (decode h l buffer).0
  unfolding decode read_frame started
  decode-Bounded l [] small = tt
  decode-Bounded l (b ∷ bs) small =
      started-Bounded (length (b ∷ bs)) l (open_archive h (ibufferstream (b ∷ bs))) small
        (open_archive-Within (b ∷ bs))
