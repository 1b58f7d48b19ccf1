-- ===== src/Hash/Examples.antt =====
-- Witnesses: the identifiers of short names.
use grlx_rpc.Prelude.{◌≢◌, ◌∷◌, ◌++◌, arith, codes}
use grlx_rpc.Hash.{signed, unsigned, shash64}
use grlx_rpc.Hash.Portable.{shash64_not_portable}

shash64_not_portable_example :
    shash64 signed (codes "a" ++ 233 ∷ codes "b") ≢ shash64 unsigned (codes "a" ++ 233 ∷ codes "b")
shash64_not_portable_example =
    shash64_not_portable (codes "a") (codes "b") 233 (omega arith, tt) (omega arith, tt)
      (omega arith) (omega arith)
