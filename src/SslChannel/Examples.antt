-- ===== src/SslChannel/Examples.antt =====
-- Witnesses: a peer with a certificate, an IPv6 address, and contexts over a store that is a list.
use grlx_rpc.Prelude.{
  ℕ, ◌≡◌, refl, ltb, length, Bool, true, false, none, some, List, [], ◌∷◌, ◌++◌, arith, nat_eq,
  ◌==◌, All, codes, if◌then◌else◌,
}
use grlx_rpc.Buffer.{success, connection_reset}
use grlx_rpc.Session.Samples.{caller}
use grlx_rpc.Socket.{Peer, TcpSocket, Made, null_session, Resolver, endpoints, no_endpoint}
use grlx_rpc.Session.State.{Session}
use grlx_rpc.Security.Arithmetic.{billionths}
use grlx_rpc.TcpChannel.{colon}
use grlx_rpc.SslChannel.{SslChannel, finished, accept, split_address}
use grlx_rpc.SslChannel.Address.{asks_for, connect_address_lem}
use grlx_rpc.SslChannel
use grlx_rpc.TcpChannel.Endpoint
use grlx_rpc.SslChannel.Admit.{is_session, accept_lem}
use grlx_rpc.SslChannel.Config.{Openssl, default_config, empty, make_client_context}
use grlx_rpc.SslChannel.Config.Trust.{WhenMade, Enforces, make_client_context-Enforces}

abbrev lan : Peer
lan = record { address = "10.0.0.2"; port = "40000" }

abbrev socket : TcpSocket
socket = record { remote = some lan; is_open = true; no_delay = false }

-- Its filter lets nobody in.
abbrev closed : SslChannel
closed = record { acceptor = none; pre_filter = some (λ peer. (false, [])) }

accept_lem_example :
    is_session (accept true (finished success) none socket closed (λ s. caller)) ≡ false
accept_lem_example = accept_lem true (finished success) none socket closed (λ s. caller)

-- A resolver that knows one host, and connections that fail.
abbrev known : Resolver
known host port = if ltb (length host) 5 then endpoints lan [] else no_endpoint connection_reset

abbrev refusing : Peer → Made (Session billionths ℕ)
refusing peer = null_session

connect_address_lem_example :
    let ask = asks_for known refusing in
    (SslChannel.connect_address known (codes "host" ++ colon ∷ codes "80") refusing
      ≡ ask (codes "host", codes "80"))
    × (Endpoint.connect_address known (codes "host" ++ colon ∷ codes "80") refusing
        ≡ ask (codes "host", codes "80"))
    × (SslChannel.connect_address known (codes "host") refusing ≡ ask (codes "host", codes "0"))
    × (Endpoint.connect_address known (codes "host") refusing ≡ ask (codes "host", codes "0"))
    × (SslChannel.connect_address known
          (codes "host" ++ colon ∷ (codes "x" ++ colon ∷ codes "80"))
          refusing
        ≡ ask (codes "host" ++ colon ∷ codes "x", codes "80"))
    × (Endpoint.connect_address known
          (codes "host" ++ colon ∷ (codes "x" ++ colon ∷ codes "80"))
          refusing
        ≡ ask (codes "host" ++ colon ∷ (codes "x" ++ colon ∷ codes "80"), codes "0"))
connect_address_lem_example =
    connect_address_lem known refusing (codes "host") (codes "80") (codes "x") (ground arith)
      (ground arith)

abbrev is_in : ℕ → List ℕ → Bool
is_in c [] = false
is_in c (d ∷ ds) = if c == d then true else is_in c ds

is_in_added : (c : ℕ) (store : List ℕ) → is_in c (c ∷ store) ≡ true
is_in_added c store = ground arith

is_in_kept : (c d : ℕ) (store : List ℕ) → is_in c store ≡ true → is_in c (d ∷ store) ≡ true
is_in_kept c d store h = ground arith

-- A text is the list of its certificates.
abbrev listed : Openssl
listed = record {
  set_min_proto_version = λ v. true;
  use_certificate_chain = λ b. true;
  use_private_key = λ b. true;
  bio_new_mem_buf = λ b. true;
  name_new_null = true;
  read_certificates = λ b. b;
  subject_name = λ c. some c;
  add_certificate_authority = λ b store. some store;
  store_add_cert = λ c store. c ∷ store;
  trusts = is_in;
  trusts_added = is_in_added;
  trusts_kept = is_in_kept;
}

make_client_context-Enforces_example :
    WhenMade
      (λ ctx. Enforces false default_config ctx × All (λ c. is_in c ctx.store ≡ true) (1 ∷ 2 ∷ []))
      (make_client_context listed [] [] (1 ∷ 2 ∷ []) default_config)
unfolding empty
make_client_context-Enforces_example =
    make_client_context-Enforces listed [] [] (1 ∷ 2 ∷ []) default_config refl refl
