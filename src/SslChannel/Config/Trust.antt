-- ===== src/SslChannel/Config/Trust.antt =====
-- include/grlx/rpc/ssl_channel.hpp: the policy of the contexts that are made, and their stores.
use grlx_rpc.Prelude.{
  ℕ, ◌≡◌, refl, Bool-cases, inl, inr, Bool, true, false, Option, none, some, List, [], ◌∷◌, arith,
  All,
}
use grlx_rpc.Buffer.{Buffer}
use grlx_rpc.SslChannel.Config.{
  TlsConfig, Context, Openssl, VerifyMode, verify_none, verify_peer, verify_peer_or_fail, tls1_2,
  tls1_3, fresh_context, version_of, mode_of, empty, continue, apply_tls_config,
  add_client_ca_list_from_pem, add_all, add_all_cas_from_pem, use_pair, server_cas, with_store,
  make_server_context, client_pair, make_client_context,
}

-- The property of a context, if it was made.
abbrev pub WhenMade : (Context → Type 0) → Option Context → Type 0
WhenMade P none = Unit
WhenMade P (some ctx) = P ctx

WhenMade-continue :
    (P Q : Context → Type 0) (made : Option Context) (f : Context → Option Context)
    → WhenMade P made
    → ((ctx : Context) → P ctx → WhenMade Q (f ctx))
    → WhenMade Q (continue made f)
WhenMade-continue P Q none f p next = tt
WhenMade-continue P Q (some ctx) f p next = next ctx p

-- How each side verifies its peer: a server demands a certificate exactly if it requires one, a client
-- verifies the server exactly if it is to.
abbrev pub Verifies : Bool → TlsConfig → VerifyMode → Type 0
Verifies true config mode =
    (config.require_client_cert ≡ true → mode ≡ verify_peer_or_fail)
    × (config.require_client_cert ≡ false → mode ≡ verify_none)
Verifies false config mode =
    (config.verify_server_cert ≡ true → mode ≡ verify_peer)
    × (config.verify_server_cert ≡ false → mode ≡ verify_none)

-- The policy of a configuration: no protocol before 1.3 if it says so and none before 1.2 otherwise, the
-- verification of the peer, and the length of its chain.
abbrev pub Enforces : Bool → TlsConfig → Context → Type 0
Enforces server_side config ctx =
    (config.tls13_only ≡ true → ctx.min_version ≡ some tls1_3)
    × (config.tls13_only ≡ false → ctx.min_version ≡ some tls1_2)
    × Verifies server_side config ctx.verify_mode
    × (ctx.verify_depth ≡ 5)

mode_of-Verifies :
    (server_side : Bool) (config : TlsConfig)
    → Verifies server_side config (mode_of server_side config)
mode_of-Verifies true config = (λ e. rw e refl, λ e. rw e refl)
mode_of-Verifies false config = (λ e. rw e refl, λ e. rw e refl)

module _ (o : Openssl) where
  applied-Enforces :
      (server_side : Bool) (config : TlsConfig)
      → WhenMade
          (λ ctx. Enforces server_side config ctx × (ctx.store ≡ []))
          (apply_tls_config o (fresh_context server_side) config server_side)
  unfolding apply_tls_config
  applied-Enforces server_side config =
      elim (Bool-cases (o.set_min_proto_version (version_of config))) [
        | inl works ↦
            rw works
              ((λ e. rw e refl, λ e. rw e refl, mode_of-Verifies server_side config, refl), refl)
        | inr throws ↦ rw throws tt
      ]

  pair-Enforces :
      (server_side : Bool) (config : TlsConfig) (cert_pem key_pem : Buffer) (ctx : Context)
      → Enforces server_side config ctx × (ctx.store ≡ [])
      → WhenMade
          (λ c. Enforces server_side config c × (c.store ≡ []))
          (use_pair o cert_pem key_pem ctx)
  unfolding use_pair
  pair-Enforces server_side config cert_pem key_pem ctx e = ground arith

  client_pair-Enforces :
      (config : TlsConfig) (cert_pem key_pem : Buffer) (ctx : Context)
      → Enforces false config ctx × (ctx.store ≡ [])
      → WhenMade
          (λ c. Enforces false config c × (c.store ≡ []))
          (client_pair o cert_pem key_pem ctx)
  unfolding client_pair
  client_pair-Enforces config cert_pem key_pem ctx e =
      ground (arith, pair-Enforces false config cert_pem key_pem ctx e)

  add_all_keeps :
      (c : ℕ) (certs store : List ℕ)
      → o.trusts c store ≡ true
      → o.trusts c (add_all o certs store) ≡ true
  unfolding add_all
  add_all_keeps c [] store t = t
  add_all_keeps c (d ∷ certs) store t =
      add_all_keeps c certs (o.store_add_cert d store) (o.trusts_kept c d store t)

  add_all_trusts :
      (certs store : List ℕ) → All (λ c. o.trusts c (add_all o certs store) ≡ true) certs
  unfolding add_all
  add_all_trusts [] store = tt
  add_all_trusts (d ∷ certs) store = (
    add_all_keeps d certs (o.store_add_cert d store) (o.trusts_added d store),
    add_all_trusts certs (o.store_add_cert d store),
  )

  bundle_trusted :
      (config : TlsConfig) (ca_pem : Buffer) (ctx : Context)
      → empty ca_pem ≡ false
      → o.bio_new_mem_buf ca_pem ≡ true
      → Enforces false config ctx × (ctx.store ≡ [])
      → Enforces false config (add_all_cas_from_pem o ctx ca_pem)
        × All
            (λ c. o.trusts c (add_all_cas_from_pem o ctx ca_pem).store ≡ true)
            (o.read_certificates ca_pem)
  unfolding add_all_cas_from_pem
  bundle_trusted config ca_pem ctx some_text opened e =
      rw (some_text, opened) (e.0, add_all_trusts (o.read_certificates ca_pem) ctx.store)

  -- A client's context that is made, with a bundle that is not empty and can be opened, has the policy of its
  -- configuration, and trusts every certificate of the bundle: also those after the first.
  pub make_client_context-Enforces :
      (cert_pem key_pem ca_pem : Buffer) (config : TlsConfig)
      → empty ca_pem ≡ false
      → o.bio_new_mem_buf ca_pem ≡ true
      → WhenMade
          (λ ctx.
            Enforces false config ctx
            × All (λ c. o.trusts c ctx.store ≡ true) (o.read_certificates ca_pem))
          (make_client_context o cert_pem key_pem ca_pem config)
  unfolding make_client_context
  make_client_context-Enforces cert_pem key_pem ca_pem config some_text opened =
      WhenMade-continue _ _ (apply_tls_config o (fresh_context false) config false) _
        (applied-Enforces false config)
        λ applied e.
          WhenMade-continue _ _ (client_pair o cert_pem key_pem applied) _
            (client_pair-Enforces config cert_pem key_pem applied e)
            λ loaded e'. bundle_trusted config ca_pem loaded some_text opened e'

  listed-Enforces :
      (config : TlsConfig) (ca_pem : Buffer) (ctx : Context)
      → Enforces true config ctx
      → Enforces true config (add_client_ca_list_from_pem o ctx ca_pem)
  unfolding add_client_ca_list_from_pem
  listed-Enforces config ca_pem ctx e = ground arith

  stored-Enforces :
      (config : TlsConfig) (store : Option (List ℕ)) (ca_pem : Buffer) (ctx : Context)
      → Enforces true config ctx
      → WhenMade (Enforces true config) (with_store o store ca_pem ctx)
  unfolding with_store
  stored-Enforces config none ca_pem ctx e = tt
  stored-Enforces config (some store) ca_pem ctx e =
      listed-Enforces config ca_pem (record ctx { store = store }) e

  server_cas-Enforces :
      (config : TlsConfig) (ca_pem : Buffer) (ctx : Context)
      → Enforces true config ctx
      → WhenMade (Enforces true config) (server_cas o ca_pem ctx)
  unfolding server_cas
  server_cas-Enforces config ca_pem ctx e =
      ground
        (arith, stored-Enforces config (o.add_certificate_authority ca_pem ctx.store) ca_pem ctx e)

  -- A server's context that is made has the policy of its configuration: with mutual TLS required, no client without a
  -- certificate gets in, and no protocol older than the configured one.
  pub make_server_context-Enforces :
      (cert_pem key_pem ca_pem : Buffer) (config : TlsConfig)
      → WhenMade (Enforces true config) (make_server_context o cert_pem key_pem ca_pem config)
  unfolding make_server_context
  make_server_context-Enforces cert_pem key_pem ca_pem config =
      WhenMade-continue _ _ (apply_tls_config o (fresh_context true) config true) _
        (applied-Enforces true config)
        λ applied e.
          WhenMade-continue _ _ (use_pair o cert_pem key_pem applied) _
            (pair-Enforces true config cert_pem key_pem applied e)
            λ loaded e'. server_cas-Enforces config ca_pem loaded e'.0
