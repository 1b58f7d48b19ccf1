-- ===== src/Encoder/Examples.antt =====
-- Witnesses: a little-endian host, and frames of both byte orders.
use grlx_rpc.Prelude.{◌+◌, ◌≤◌, ◌≡◌, refl, true, false, [], ◌∷◌, arith, All, some}
use grlx_rpc.Buffer.{Buffer}
use grlx_rpc.Encoder.{
  Archive, ok, Loads, finish, size_tag, binary_data, decode, load_binary, open_archive,
  ibufferstream,
}
use grlx_rpc.Encoder.Bounds.{decode-Bounded}
use grlx_rpc.Encoder.Endian.{wire, load_binary-wire}
use grlx_rpc.Encoder.Samples.{desktop}

-- A string: its size, and as many bytes.
abbrev string : Loads Buffer
string = size_tag (λ n. binary_data 1 n (λ b. finish b))

-- One of a host of the other byte order.
abbrev hello : Buffer
hello = 0 ∷ 0 ∷ 0 ∷ 0 ∷ 0 ∷ 0 ∷ 0 ∷ 0 ∷ 2 ∷ 104 ∷ 105 ∷ []

hello_read : decode desktop string hello ≡ (2 ∷ [], some (104 ∷ 105 ∷ []))
unfolding decode
hello_read = refl

decode-Bounded_example : All (λ n. n + 9 ≤ 11 + 64) (decode desktop string hello).0
decode-Bounded_example = decode-Bounded desktop string hello (omega arith)

-- Of a writer of the other byte order.
load_binary-wire_example :
    (ar : Archive) × (open_archive desktop (ibufferstream (0 ∷ 1 ∷ 0 ∷ 2 ∷ 0 ∷ 9 ∷ [])) ≡ ok ar)
    × (load_binary desktop 2 2 ar
        ≡ ok (
          0 ∷ 1 ∷ 0 ∷ 2 ∷ [],
          record ar { stream = record { rest = 9 ∷ []; pos = 5; seekable = true } },
        ))
unfolding wire
load_binary-wire_example =
    load_binary-wire desktop 2 ((0 ∷ 1 ∷ []) ∷ (0 ∷ 2 ∷ []) ∷ []) false (9 ∷ []) (refl, (refl, tt))

abbrev forged : Archive
forged = record {
  stream = record { rest = 0 ∷ 0 ∷ 0 ∷ 0 ∷ 0 ∷ 0 ∷ 255 ∷ 255 ∷ 7 ∷ []; pos = 1; seekable = true };
  total = 10;
  convert_endianness = true;
}
