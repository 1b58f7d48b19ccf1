-- ===== src/SslChannel/Config.antt =====
-- include/grlx/rpc/ssl_channel.hpp: the contexts of the two sides. What OpenSSL and Asio do with a PEM text, and whether they
-- succeed, is an interface; a certificate is a number.
pub mod Trust
use grlx_rpc.Prelude.{
  ℕ, ◌≡◌, refl, Bool, true, false, not, ◌&&◌, Option, none, some, List, [], ◌∷◌, if◌then◌else◌, All,
}
use grlx_rpc.Buffer.{Buffer}

pub record TlsConfig : Type 0 where
  pub require_client_cert : Bool
  pub verify_server_cert : Bool
  pub tls13_only : Bool

abbrev pub default_config : TlsConfig
default_config = record { require_client_cert = true; verify_server_cert = true; tls13_only = true }

pub data Version : Type 0 where
  tls1_2 tls1_3 : Version

pub data VerifyMode : Type 0 where
  verify_none verify_peer verify_peer_or_fail : VerifyMode

pub data ContextOption : Type 0 where
  default_workarounds no_sslv2 no_sslv3 no_compression single_dh_use : ContextOption

pub record Context : Type 0 where
  pub server_side : Bool
  pub options : List ContextOption
  pub min_version : Option Version
  pub verify_mode : VerifyMode
  pub verify_depth : ℕ
  pub certificate_chain : Option Buffer
  pub private_key : Option Buffer
  pub store : List ℕ
  pub client_ca_list : List ℕ

pub record Openssl : Type 0 where
  -- Whether the calls succeed.
  pub set_min_proto_version : Version → Bool
  pub use_certificate_chain : Buffer → Bool
  pub use_private_key : Buffer → Bool
  pub bio_new_mem_buf : Buffer → Bool
  pub name_new_null : Bool
  -- The certificates of a text, as `PEM_read_bio_X509` gives them one after the other.
  pub read_certificates : Buffer → List ℕ
  pub subject_name : ℕ → Option ℕ
  -- `add_certificate_authority` of Asio: the store afterwards, or an exception.
  pub add_certificate_authority : Buffer → List ℕ → Option (List ℕ)
  -- `X509_STORE_add_cert`: the certificate is trusted, and what was trusted is.
  pub store_add_cert : ℕ → List ℕ → List ℕ
  pub trusts : ℕ → List ℕ → Bool
  pub trusts_added : (c : ℕ) (store : List ℕ) → trusts c (store_add_cert c store) ≡ true
  pub trusts_kept :
      (c d : ℕ) (store : List ℕ) → trusts c store ≡ true → trusts c (store_add_cert d store) ≡ true

abbrev pub fresh_context : Bool → Context
fresh_context server_side = record {
  server_side = server_side;
  options = [];
  min_version = none;
  verify_mode = verify_none;
  verify_depth = 0;
  certificate_chain = none;
  private_key = none;
  store = [];
  client_ca_list = [];
}

abbrev pub version_of : TlsConfig → Version
version_of cfg = if cfg.tls13_only then tls1_3 else tls1_2

abbrev pub mode_of : Bool → TlsConfig → VerifyMode
mode_of server_side cfg =
    if server_side
    then (if cfg.require_client_cert then verify_peer_or_fail else verify_none)
    else if cfg.verify_server_cert
    then verify_peer
    else verify_none

unfoldable pub empty : Buffer → Bool
empty [] = true
empty (b ∷ bs) = false

-- An exception ends the construction.
abbrev pub continue : Option Context → (Context → Option Context) → Option Context
continue none f = none
continue (some ctx) f = f ctx

module _ (o : Openssl) where
  -- `none` where it throws.
  unfoldable pub apply_tls_config : Context → TlsConfig → Bool → Option Context
  apply_tls_config ctx cfg server_side =
      if o.set_min_proto_version (version_of cfg)
      then some (record ctx {
        options = default_workarounds ∷ no_sslv2 ∷ no_sslv3 ∷ no_compression ∷ single_dh_use ∷ [];
        min_version = some (version_of cfg);
        verify_mode = mode_of server_side cfg;
        verify_depth = 5;
      })
      else none

  push_name : Option ℕ → List ℕ → List ℕ
  push_name none names = names
  push_name (some name) names = name ∷ names

  subject_names : List ℕ → List ℕ
  unfolding push_name
  subject_names [] = []
  subject_names (cert ∷ certs) = push_name (o.subject_name cert) (subject_names certs)

  unfoldable pub add_client_ca_list_from_pem : Context → Buffer → Context
  unfolding subject_names empty
  add_client_ca_list_from_pem ctx ca_pem =
      if empty ca_pem
      then ctx
      else if not (o.bio_new_mem_buf ca_pem)
      then ctx
      else if not o.name_new_null
      then ctx
      else record ctx { client_ca_list = subject_names (o.read_certificates ca_pem) }

  -- The loop over the bundle.
  add_all : List ℕ → List ℕ → List ℕ
  add_all [] store = store
  add_all (cert ∷ certs) store = add_all certs (o.store_add_cert cert store)

  unfoldable pub add_all_cas_from_pem : Context → Buffer → Context
  unfolding add_all empty
  add_all_cas_from_pem ctx ca_pem =
      if empty ca_pem
      then ctx
      else if not (o.bio_new_mem_buf ca_pem)
      then ctx
      else record ctx { store = add_all (o.read_certificates ca_pem) ctx.store }

  -- `use_certificate_chain` and `use_private_key`, of which each may throw.
  use_pair : Buffer → Buffer → Context → Option Context
  use_pair cert_pem key_pem ctx =
      if o.use_certificate_chain cert_pem && o.use_private_key key_pem
      then some (record ctx { certificate_chain = some cert_pem; private_key = some key_pem })
      else none

  with_store : Option (List ℕ) → Buffer → Context → Option Context
  unfolding add_client_ca_list_from_pem
  with_store none ca_pem ctx = none
  with_store (some store) ca_pem ctx =
      some (add_client_ca_list_from_pem (record ctx { store = store }) ca_pem)

  server_cas : Buffer → Context → Option Context
  unfolding with_store empty
  server_cas ca_pem ctx =
      if empty ca_pem
      then some ctx
      else with_store (o.add_certificate_authority ca_pem ctx.store) ca_pem ctx

  unfoldable pub make_server_context : Buffer → Buffer → Buffer → TlsConfig → Option Context
  unfolding apply_tls_config use_pair server_cas
  make_server_context cert_pem key_pem ca_pem config =
      continue (apply_tls_config (fresh_context true) config true)
        λ applied. continue (use_pair cert_pem key_pem applied) λ loaded. server_cas ca_pem loaded

  client_pair : Buffer → Buffer → Context → Option Context
  unfolding use_pair empty
  client_pair cert_pem key_pem ctx =
      if not (empty cert_pem) && not (empty key_pem)
      then use_pair cert_pem key_pem ctx
      else some ctx

  unfoldable pub make_client_context : Buffer → Buffer → Buffer → TlsConfig → Option Context
  unfolding apply_tls_config client_pair add_all_cas_from_pem
  make_client_context cert_pem key_pem ca_pem config =
      continue (apply_tls_config (fresh_context false) config false) λ applied.
        continue (client_pair cert_pem key_pem applied)
          λ loaded. some (add_all_cas_from_pem loaded ca_pem)
