-- ===== src/Encoder/Endian.antt =====
-- include/grlx/rpc/encoder.hpp: the byte order of a frame and that of its reader.
use grlx_rpc.Prelude.{
  ℕ, ◌+◌, ◌*◌, ◌≡◌, refl, subst, ◌∙◌, Bool, true, false, List, [], ◌∷◌, ◌++◌, arith, length,
  length-append, take, drop, take-append, drop-append, All, nat_eq, if◌then◌else◌, not, ◌==◌,
}
use grlx_rpc.Buffer.{Buffer}
use grlx_rpc.Encoder.{
  Archive, Host, ok, sgetn, swap_elements, load_binary, open_archive, number, order_word,
  with_order, differs, unordered, ibufferstream,
}

module _ (h : Host) where
  -- The elements as a host lays them out: of the reader's byte order, or of the other.
  unfoldable pub wire : Bool → List Buffer → Buffer
  wire foreign [] = []
  wire foreign (e ∷ es) = (if foreign then h.swap_bytes e else e) ++ wire foreign es

  length-wire :
      (w : ℕ) (foreign : Bool) (es : List Buffer)
      → All (λ e. length e ≡ w) es
      → length (wire foreign es) ≡ length es * w
  unfolding wire
  length-wire w foreign [] sizes = omega arith
  length-wire w true (e ∷ es) sizes =
      let rest = length-wire w true es sizes.1 in
      let app = length-append (h.swap_bytes e) (wire true es) in
      let same = h.length-swap_bytes e in ground arith
  length-wire w false (e ∷ es) sizes =
      let rest = length-wire w false es sizes.1 in
      let app = length-append e (wire false es) in ground arith

  take_front : (w : ℕ) (e rest : Buffer) → length e ≡ w → take w (e ++ rest) ≡ e
  take_front w e rest same = subst (λ n. take n (e ++ rest) ≡ e) same (take-append e rest)

  drop_front : (w : ℕ) (e rest : Buffer) → length e ≡ w → drop w (e ++ rest) ≡ rest
  drop_front w e rest same = subst (λ n. drop n (e ++ rest) ≡ rest) same (drop-append e rest)

  swap_elements-wire :
      (w : ℕ) (es : List Buffer)
      → All (λ e. length e ≡ w) es
      → swap_elements h.swap_bytes w (length es) (wire true es) ≡ wire false es
  unfolding swap_elements wire
  swap_elements-wire w [] sizes = refl
  swap_elements-wire w (e ∷ es) sizes =
      let same = h.length-swap_bytes e ∙ sizes.0 in
      rw (
        take_front w (h.swap_bytes e) (wire true es) same,
        drop_front w (h.swap_bytes e) (wire true es) same,
        h.swap_bytes_twice e,
        swap_elements-wire w es sizes.1,
      )

  as_read :
      (w : ℕ) (foreign : Bool) (es : List Buffer)
      → All (λ e. length e ≡ w) es
      → (if foreign
          then swap_elements h.swap_bytes w (length es) (wire foreign es)
          else wire foreign es)
        ≡ wire false es
  as_read w true es sizes = swap_elements-wire w es sizes
  as_read w false es sizes = refl

  pub load_elements :
      (w : ℕ) (es : List Buffer) (ar : Archive) (following : Buffer)
      → All (λ e. length e ≡ w) es
      → ar.stream.rest ≡ wire ar.convert_endianness es ++ following
      → load_binary h w (length es) ar
        ≡ ok (
          wire false es,
          record ar {
            stream = record ar.stream { rest = following; pos = ar.stream.pos + length es * w };
          },
        )
  unfolding load_binary sgetn
  load_elements w es ar following sizes e =
      let len = length-wire w ar.convert_endianness es sizes in
      let bytes = wire ar.convert_endianness es in
      let read : take (length es * w) ar.stream.rest ≡ bytes =
        rw e (take_front (length es * w) bytes following len) in
      let left : drop (length es * w) ar.stream.rest ≡ following =
        rw e (drop_front (length es * w) bytes following len) in
      let same = as_read w ar.convert_endianness es sizes in
      rw (read, left, len, same) (ground arith)

  -- The first byte of a frame, by the byte order of the host that writes it.
  abbrev pub order_byte : Bool → ℕ
  order_byte true = 1
  order_byte false = 0

  -- Whether a writer of this byte order is foreign to the reader.
  abbrev pub foreign_to : Bool → Bool → Bool
  foreign_to true true = false
  foreign_to false false = false
  foreign_to true false = true
  foreign_to false true = true

  differs-foreign :
      (reader writer : Bool)
      → not (number (order_byte writer ∷ []) == order_word h reader) ≡ foreign_to reader writer
  unfolding order_word
  differs-foreign true true = refl
  differs-foreign true false = refl
  differs-foreign false true = refl
  differs-foreign false false = refl

  -- The archive over a frame: its first byte says whether the writer is foreign.
  abbrev opened : Bool → Buffer → Archive
  opened writer payload = record (unordered h (ibufferstream (order_byte writer ∷ payload))) {
    stream = record { rest = payload; pos = 1; seekable = true };
    convert_endianness = foreign_to h.is_little_endian writer;
  }

  open_archive-opened :
      (writer : Bool) (payload : Buffer)
      → open_archive h (ibufferstream (order_byte writer ∷ payload)) ≡ ok (opened writer payload)
  unfolding open_archive load_binary sgetn with_order differs
  open_archive-opened writer payload = rw (differs-foreign h.is_little_endian writer) refl

  -- A frame of a writer of either byte order: the writer's order as its first byte, then elements of w bytes as that
  -- writer lays them out, and more. The archive opens it, and reading the n elements gives them in the reader's order and
  -- leaves what follows, whichever the two orders are.
  pub load_binary-wire :
      (w : ℕ) (es : List Buffer) (writer : Bool) (following : Buffer)
      → All (λ e. length e ≡ w) es
      → let frame =
          order_byte writer ∷ (wire (foreign_to h.is_little_endian writer) es ++ following) in
        (ar : Archive) × (open_archive h (ibufferstream frame) ≡ ok ar)
        × (load_binary h w (length es) ar
            ≡ ok (
              wire false es,
              record ar {
                stream = record { rest = following; pos = 1 + length es * w; seekable = true };
              },
            ))
  load_binary-wire w es writer following sizes =
      let payload = wire (foreign_to h.is_little_endian writer) es ++ following in
      let ar = opened writer payload in
      (ar, open_archive-opened writer payload, load_elements w es ar following sizes refl)
