-- ===== src/TcpChannel/Address.antt =====
-- An address is split at its colon if it has exactly one.
use grlx_rpc.Prelude.{
  ℕ, suc, ◌+◌, ◌≤◌, ◌<◌, ◌≡◌, ◌≢◌, refl, ap, sym, ◌∙◌, none, some, List, [], ◌∷◌, ◌++◌, arith,
  length, drop, codes, take-append, append_assoc, length-append, nat_eq, nat_beq_iff, Option-cases,
  inl, inr,
}
use grlx_rpc.TcpChannel.{colon, find, rfind, split_host, parse_address}

abbrev pub HasNoColon : List ℕ → Type 0
HasNoColon [] = Unit
HasNoColon (c ∷ cs) = (c ≢ colon) × HasNoColon cs

find-none : (cs : List ℕ) → HasNoColon cs → find colon cs ≡ none
unfolding find
find-none [] h = refl
find-none (c ∷ cs) h = ground (arith, find-none cs h.1, h.0)

pub rfind-none : (cs : List ℕ) → HasNoColon cs → rfind colon cs ≡ none
unfolding rfind
rfind-none [] h = refl
rfind-none (c ∷ cs) h = ground (arith, rfind-none cs h.1, h.0)

find_first : (cs rest : List ℕ) → HasNoColon cs → find colon (cs ++ colon ∷ rest) ≡ some (length cs)
unfolding find
find_first [] rest h = ground arith
find_first (c ∷ cs) rest h = ground (arith, find_first cs rest h.1, h.0)

pub rfind_last :
    (cs rest : List ℕ) → HasNoColon rest → rfind colon (cs ++ colon ∷ rest) ≡ some (length cs)
unfolding rfind
rfind_last [] rest h = ground (arith, rfind-none rest h)
rfind_last (c ∷ cs) rest h = ground (arith, rfind_last cs rest h)

-- The last colon is not before any colon.
rfind_late :
    (cs rest : List ℕ) → (k : ℕ) × (rfind colon (cs ++ colon ∷ rest) ≡ some k) × (length cs ≤ k)
unfolding rfind
rfind_late [] rest = elim (Option-cases (rfind colon rest)) [
  | inl e ↦ (0, ground (arith, e), omega arith)
  | inr (n, e) ↦ (suc n, ground (arith, e), omega arith)
]
rfind_late (c ∷ cs) rest =
    let (k, e, le) = rfind_late cs rest in (suc k, ground (arith, e), omega (arith, le))

pub drop_past : (cs rest : List ℕ) → drop (length cs + 1) (cs ++ colon ∷ rest) ≡ rest
drop_past [] rest = refl
drop_past (c ∷ cs) rest =
    let moved : suc (length cs) + 1 ≡ suc (length cs + 1) = omega arith in
    rw moved (drop_past cs rest)

split_once :
    (host port : List ℕ)
    → split_host (host ++ colon ∷ port) (some (length host)) (some (length host)) ≡ (host, port)
unfolding split_host
split_once host port = ground (arith, take-append host (colon ∷ port), drop_past host port)

split_not :
    (address : List ℕ) (p q : ℕ)
    → q < p
    → split_host address (some p) (some q) ≡ (address, codes "0")
unfolding split_host
split_not address p q lt = ground (arith, nat_beq_iff p q)

late :
    (host between port : List ℕ)
    → (k : ℕ) × (rfind colon (host ++ colon ∷ (between ++ colon ∷ port)) ≡ some k)
      × (length host < k)
late host between port =
    let (k, e, le) = rfind_late (host ++ colon ∷ between) port in
    (
      k,
      ap (rfind colon) (sym (append_assoc host (colon ∷ between) (colon ∷ port))) ∙ e,
      omega (arith, le, length-append host (colon ∷ between)),
    )

-- A host and a port with no colon in either, written with one between them, are read back. An address
-- with no colon, or with two or more, such as an IPv6 address with or without brackets, is returned
-- whole with the port 0.
pub parse_address_lem :
    (host port between : List ℕ)
    → HasNoColon host
    → (HasNoColon port → parse_address (host ++ colon ∷ port) ≡ (host, port))
      × (parse_address host ≡ (host, codes "0"))
      × (let many = host ++ colon ∷ (between ++ colon ∷ port) in
          parse_address many ≡ (many, codes "0"))
unfolding parse_address
parse_address_lem host port between h = (
  λ p. rw (rfind_last host port p, find_first host port h) (split_once host port),
  rw (rfind-none host h) (unfold split_host in refl),
  let (k, e, lt) = late host between port in
      rw (e, find_first host (between ++ colon ∷ port) h)
        (split_not (host ++ colon ∷ (between ++ colon ∷ port)) k (length host) lt),
)
