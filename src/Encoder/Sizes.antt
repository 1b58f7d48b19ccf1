-- ===== src/Encoder/Sizes.antt =====
-- include/grlx/rpc/encoder.hpp: the load of one size of a container, on each of its branches.
use grlx_rpc.Prelude.{
  ◌+◌, ◌^◌, ◌≤◌, ◌<◌, ◌≡◌, true, [], ◌∷◌, ◌++◌, arith, length, append-nil, ltb, nat_eq,
  if◌then◌else◌,
}
use grlx_rpc.Buffer.{Buffer}
use grlx_rpc.Encoder.{
  Archive, Host, ok, threw, exceeds_frame, load_size, checked_size, remaining_bytes, host_number,
}
use grlx_rpc.Encoder.Endian.{wire, load_elements}

module _ (h : Host) where
  checked_size_lem :
      (e : Buffer) (ar : Archive) (following : Buffer)
      → ar.stream.pos + length following + 64 < 2 ^ 64
      → 1 ≤ ar.stream.pos
      → ar.total ≡ ar.stream.pos + length following
      → ar.stream.seekable ≡ true
      → checked_size h (ok (e, ar)) ≡ (
          if ltb (length following + 64) (host_number h e)
          then threw exceeds_frame
          else ok (host_number h e, ar))
  unfolding checked_size remaining_bytes
  checked_size_lem e ar following small read total seekable = ground arith

  -- A size of eight bytes, written by a host of either byte order, is refused exactly when it is more than 64
  -- above the number of bytes that follow it; otherwise it is read and the archive stands behind it. The archive
  -- has measured its frame, and the frame's length and the slack are below 2^64.
  pub load_size_lem :
      (e : Buffer) (ar : Archive) (following : Buffer)
      → length e ≡ 8
      → ar.stream.rest ≡ wire h ar.convert_endianness (e ∷ []) ++ following
      → ar.total ≡ ar.stream.pos + 8 + length following
      → ar.total + 64 < 2 ^ 64
      → ar.stream.seekable ≡ true
      → load_size h ar ≡ (
          if ltb (length following + 64) (host_number h e)
          then threw exceeds_frame
          else ok (
            host_number h e,
            record ar { stream = record ar.stream { rest = following; pos = ar.stream.pos + 8 } },
          ))
  unfolding load_size wire
  load_size_lem e ar following size rest total small seekable =
      rw (load_elements h 8 (e ∷ []) ar following (size, tt) rest, append-nil e)
        (checked_size_lem e
          (record ar { stream = record ar.stream { rest = following; pos = ar.stream.pos + 8 } })
          following (omega arith) (omega arith) total seekable)
