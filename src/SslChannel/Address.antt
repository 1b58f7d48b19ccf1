-- ===== src/SslChannel/Address.antt =====
-- include/grlx/rpc/ssl_channel.hpp: the address of `connect`, beside that of the plain channel.
use grlx_rpc.Prelude.{
  ℕ, ◌≡◌, refl, ap, sym, ◌∙◌, append_assoc, List, [], ◌∷◌, ◌++◌, codes, take-append,
}
use grlx_rpc.Security.Arithmetic.{Double}
use grlx_rpc.Session.State.{Session}
use grlx_rpc.Socket.{
  Peer, Made, Resolver, Resolved, endpoints, no_endpoint, Sought, tried, unresolved, first_endpoint,
}
use grlx_rpc.TcpChannel.Endpoint
use grlx_rpc.SslChannel
use grlx_rpc.TcpChannel.{colon, parse_address}
use grlx_rpc.TcpChannel.Address.{HasNoColon, rfind-none, rfind_last, drop_past, parse_address_lem}
use grlx_rpc.SslChannel.{split_address, at_colon}

split_last :
    (host port : List ℕ) → HasNoColon port → split_address (host ++ colon ∷ port) ≡ (host, port)
unfolding split_address at_colon
split_last host port h =
    rw (rfind_last host port h, take-append host (colon ∷ port), drop_past host port) refl

-- A host, whatever is in it, and a port with no colon, written with one between them, are read back: also an IPv6
-- host, with or without brackets, which the plain channel would return whole. A host with no colon has the port 0,
-- and on addresses with one colon at most the two channels agree.
pub split_address_lem :
    (host plain port : List ℕ)
    → HasNoColon plain
    → HasNoColon port
    → (split_address (host ++ colon ∷ port) ≡ (host, port))
      × (split_address plain ≡ (plain, codes "0"))
      × (split_address plain ≡ parse_address plain)
      × (split_address (plain ++ colon ∷ port) ≡ parse_address (plain ++ colon ∷ port))
unfolding split_address at_colon
split_address_lem host plain port no_colon h =
    let (once, whole, many) = parse_address_lem plain port [] no_colon in
    let alone : split_address plain ≡ (plain, codes "0") = rw (rfind-none plain no_colon) refl in
    (split_last host port h, alone, alone ∙ sym whole, split_last plain port h ∙ sym (once h))

module _ {d : Double} {A : Type 0} (async_resolve : Resolver)
    (connect_to : Peer → Made (Session d A)) where
  -- The session of the first endpoint that this host and this service have, or the resolver's error.
  abbrev pub asks_for : List ℕ × List ℕ → Sought (Session d A)
  asks_for (host, port) = elim (async_resolve host port) [
    | endpoints first rest ↦ tried (connect_to first)
    | no_endpoint ec ↦ unresolved ec
  ]

  first_endpoint_lem :
      (host port : List ℕ)
      → first_endpoint (async_resolve host port) connect_to ≡ asks_for (host, port)
  unfolding first_endpoint
  first_endpoint_lem host port = given (async_resolve host port)
    where
      given :
          (r : Resolved)
          → first_endpoint r connect_to ≡ elim r [
            | endpoints first rest ↦ tried (connect_to first)
            | no_endpoint ec ↦ unresolved ec
          ]
      given (endpoints first rest) = refl
      given (no_endpoint ec) = refl

  seeks :
      {a b : List ℕ × List ℕ}
      → a ≡ b
      → first_endpoint (async_resolve a.0 a.1) connect_to ≡ asks_for b
  seeks {a = a} e = first_endpoint_lem a.0 a.1 ∙ ap asks_for e

  -- Both channels' `connect` of a host and a port with one colon between them, neither of which has another, asks the
  -- resolver for that host and port, and of a host alone for that host and the port 0; each tries the first endpoint that it gives, and throws its error if it fails.
  -- Of an address with more colons, such as an IPv6 host and a port, the secured channel asks for what stands before the
  -- last colon and behind it, and the plain one for the whole text and the port 0.
  pub connect_address_lem :
      (host port more : List ℕ)
      → HasNoColon host
      → HasNoColon port
      → (SslChannel.connect_address async_resolve (host ++ colon ∷ port) connect_to
          ≡ asks_for (host, port))
        × (Endpoint.connect_address async_resolve (host ++ colon ∷ port) connect_to
            ≡ asks_for (host, port))
        × (SslChannel.connect_address async_resolve host connect_to ≡ asks_for (host, codes "0"))
        × (Endpoint.connect_address async_resolve host connect_to ≡ asks_for (host, codes "0"))
        × (SslChannel.connect_address async_resolve
              (host ++ colon ∷ (more ++ colon ∷ port))
              connect_to
            ≡ asks_for (host ++ colon ∷ more, port))
        × (Endpoint.connect_address async_resolve
              (host ++ colon ∷ (more ++ colon ∷ port))
              connect_to
            ≡ asks_for (host ++ colon ∷ (more ++ colon ∷ port), codes "0"))
  unfolding SslChannel.connect_address Endpoint.connect_address
  connect_address_lem host port more h p =
      let (once, whole, many) = parse_address_lem host port more h in
      let alone : split_address host ≡ (host, codes "0") =
        unfold split_address at_colon in rw (rfind-none host h) refl in
      let last =
        ap split_address (sym (append_assoc host (colon ∷ more) (colon ∷ port)))
        ∙ split_last (host ++ colon ∷ more) port p in
      (
        seeks (split_last host port p),
        seeks (once p),
        seeks alone,
        seeks whole,
        seeks last,
        seeks many,
      )
