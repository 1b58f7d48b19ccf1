-- ===== src/Encoder.antt =====
-- include/grlx/rpc/encoder.hpp: the archive that reads a frame, its bound on the sizes of containers, and
-- the encoder's two functions. What cereal reads for a type is a tree of loads, a parameter.
pub mod Bounds
pub mod Endian
pub mod Sizes
pub mod Names
pub mod Samples
mod Examples
use grlx_rpc.Prelude.{
  ℕ, zero, suc, ◌+◌, ◌*◌, ◌-◌, ◌%◌, ◌^◌, ◌≤◌, ◌≡◌, ap, Bool, true, false, Option, none, some, List,
  [], ◌∷◌, ◌++◌, nat_eq, ◌==◌, length, take, drop, ltb, not, if◌then◌else◌,
}
use grlx_rpc.Buffer.{Buffer}

-- `std::istream`: what is left of it, its position, and whether it can tell it and seek.
pub record Stream : Type 0 where
  pub rest : Buffer
  pub pos : ℕ
  pub seekable : Bool

pub sgetn : ℕ → Stream → Buffer × Stream
sgetn n s = (take n s.rest, record s { rest = drop n s.rest; pos = s.pos + length (take n s.rest) })

abbrev pub ibufferstream : Buffer → Stream
ibufferstream buffer = record { rest = buffer; pos = 0; seekable = true }

-- `none` is the negative result.
abbrev pub tellg : Stream → Option ℕ
tellg s = if s.seekable then some s.pos else none

-- `tellg` after `seekg(0, std::ios::end)`.
abbrev pub tellg_end : Stream → Option ℕ
tellg_end s = if s.seekable then some (s.pos + length s.rest) else none

-- What the archive uses of the host and of cereal: the byte order, and `swap_bytes` of one element.
pub record Host : Type 0 where
  pub is_little_endian : Bool
  pub swap_bytes : Buffer → Buffer
  pub swap_bytes_twice : (b : Buffer) → swap_bytes (swap_bytes b) ≡ b
  pub length-swap_bytes : (b : Buffer) → length (swap_bytes b) ≡ length b

pub data Exception : Type 0 where
  failed_to_read : ℕ → ℕ → Exception
  exceeds_frame : Exception
  raised : ℕ → Exception

pub data Result {ℓ} (A : Type ℓ) : Type ℓ where
  ok : A → Result A
  threw : Exception → Result A

pub record Archive : Type 0 where
  pub stream : Stream
  pub total : ℕ
  pub convert_endianness : Bool

-- The first bytes up to a whole number of elements, each swapped: the loop of `loadBinary`.
pub swap_elements : (Buffer → Buffer) → ℕ → ℕ → Buffer → Buffer
swap_elements swap data_size zero b = b
swap_elements swap data_size (suc n) b =
    swap (take data_size b) ++ swap_elements swap data_size n (drop data_size b)

-- What a type's `load` asks of the archive, one thing after the other: a number of so many bytes, the size
-- of a container, n elements of so many bytes. It ends with a value, or throws.
pub data Loads {ℓ} (A : Type ℓ) : Type ℓ where
  finish : A → Loads A
  throws : ℕ → Loads A
  pod : ℕ → (Buffer → Loads A) → Loads A
  size_tag : (ℕ → Loads A) → Loads A
  binary_data : ℕ → ℕ → (Buffer → Loads A) → Loads A

-- Little-endian.
abbrev pub number : Buffer → ℕ
number [] = 0
number (b ∷ bs) = b + 256 * number bs

-- An exception ends the load.
pub after : {A B : Type 0} → (B → List ℕ × Result A) → Result B → List ℕ × Result A
after f (threw e) = ([], threw e)
after f (ok r) = f r

module _ (h : Host) where
  -- `loadBinary<DataSize>(data, n * DataSize)`.
  pub load_binary : ℕ → ℕ → Archive → Result (Buffer × Archive)
  unfolding sgetn swap_elements
  load_binary data_size n ar =
      let (read, s) = sgetn (n * data_size) ar.stream in
      if length read == n * data_size
      then ok (
        if ar.convert_endianness then swap_elements h.swap_bytes data_size n read else read,
        record ar { stream = s },
      )
      else threw (failed_to_read (n * data_size) (length read))

  pub measured : Stream → ℕ
  measured s = elim (tellg s) [ none ↦ 0 | some p ↦ elim (tellg_end s) [ none ↦ 0 | some e ↦ e ] ]

  order_word : Bool → ℕ
  order_word little = if little then 1 else 0

  -- The xor of the two order words, as a condition.
  differs : Buffer → Bool
  unfolding order_word
  differs b = not (number b == order_word h.is_little_endian)

  -- After the header byte.
  with_order : Result (Buffer × Archive) → Result Archive
  unfolding differs
  with_order (threw e) = threw e
  with_order (ok r) = ok (record r.1 { convert_endianness = differs r.0 })

  -- The archive that reads its first byte.
  abbrev pub unordered : Stream → Archive
  unfolding measured
  unordered s = record { stream = s; total = measured s; convert_endianness = false }

  -- `bounded_binary_input_archive(stream)`.
  pub open_archive : Stream → Result Archive
  unfolding load_binary with_order unordered
  open_archive s = with_order (load_binary 1 1 (unordered s))

  abbrev pub bounded : Archive → Bool
  bounded ar = ltb 0 ar.total

  pub remaining_bytes : Archive → ℕ
  remaining_bytes ar =
      let consumed : ℕ = elim (tellg ar.stream) [ none ↦ ar.total | some p ↦ p ] in
      if ltb consumed ar.total then ar.total - consumed else 0

  -- A number of the host, in memory.
  pub host_number : Buffer → ℕ
  host_number b = number (if h.is_little_endian then b else h.swap_bytes b)

  checked_size : Result (Buffer × Archive) → Result (ℕ × Archive)
  unfolding remaining_bytes host_number
  checked_size (threw e) = threw e
  checked_size (ok r) =
      if (if bounded r.1
        then ltb ((remaining_bytes r.1 + 64) % 2 ^ 64) (host_number r.0)
        else false)
      then threw exceeds_frame
      else ok (host_number r.0, r.1)

  -- The load of a `SizeTag`, whose size is a 64-bit number.
  pub load_size : Archive → Result (ℕ × Archive)
  unfolding load_binary checked_size
  load_size ar = checked_size (load_binary 8 1 ar)

  -- The loads of a value in order: the sizes that were handed out for containers, and the value.
  pub load : {A : Type 0} → Loads A → Archive → List ℕ × Result A
  unfolding load_binary load_size after
  load (finish a) ar = ([], ok a)
  load (throws n) ar = ([], threw (raised n))
  load (pod w k) ar = after (λ r. load (k r.0) r.1) (load_binary w 1 ar)
  load (size_tag k) ar =
      after (λ r. let rest = load (k r.0) r.1 in (r.0 ∷ rest.0, rest.1)) (load_size ar)
  load (binary_data w n k) ar = after (λ r. load (k r.0) r.1) (load_binary w n ar)

  started : {A : Type 0} → Loads A → Result Archive → List ℕ × Result A
  unfolding load
  started l (threw e) = ([], threw e)
  started l (ok ar) = load l ar

  -- The archive on the buffer, and the value.
  pub read_frame : {A : Type 0} → Loads A → Buffer → List ℕ × Result A
  unfolding started open_archive
  read_frame l buffer = started l (open_archive (ibufferstream buffer))

  -- `decode`: the value, or `none` for `false`. The sizes are those for which room was made.
  unfoldable pub decode : {A : Type 0} → Loads A → Buffer → List ℕ × Option A
  unfolding read_frame
  decode l [] = ([], none)
  decode l (b ∷ bs) =
      let out = read_frame l (b ∷ bs) in (out.0, elim out.1 [ ok a ↦ some a | threw e ↦ none ])

kept : Buffer → Result Buffer → Bool × Buffer
kept buffer (ok bytes) = (true, bytes)
kept buffer (threw e) = (false, buffer)

-- `encode`: the archive's bytes take the buffer's place if it did not throw.
unfoldable pub encode : {A : Type 0} → (A → Result Buffer) → Buffer → A → Bool × Buffer
unfolding kept
encode save buffer a = kept buffer (save a)

-- An object that is saved is what the buffer holds.
pub encode_saved :
    {A : Type 0} (save : A → Result Buffer) (buffer bytes : Buffer) (a : A)
    → save a ≡ ok bytes
    → encode save buffer a ≡ (true, bytes)
unfolding encode
encode_saved save buffer bytes a e = ap (kept buffer) e
