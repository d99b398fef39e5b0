-- ===== src/Authority.antt =====
-- What the authorities of src/certificate_authority/ share: the constants and the trait of mod.rs,
-- and the text of `gen_server_config`, which rcgen_authority.rs and openssl_authority.rs both have.
pub mod Certificate
pub mod Validity
pub mod Series
pub mod Concurrent
pub mod Rcgen
pub mod Openssl
use hudsucker.Prelude.{
  ℕ, ◌+◌, ◌*◌, ◌/◌, ◌<◌, ◌≡◌, ◌⊎◌, Bool, true, false, if◌then◌else◌, Option, none, some, List, [],
  ◌∷◌, Bytes, codes, Outcome, done, panic, and_then,
}

-- Times are seconds after some first moment, before which no clock stands; durations are seconds.
abbrev pub Time : Type 0
Time = ℕ

abbrev pub ttl_secs : ℕ
ttl_secs = 365 * 24 * 60 * 60

abbrev pub cache_ttl : ℕ
cache_ttl = ttl_secs / 2

abbrev pub not_before_offset : ℕ
not_before_offset = 60

-- What a certificate says.
pub record Contents : Type 0 where
  pub not_before : Time
  pub not_after : Time
  pub common_name : Bytes
  -- the DNS names among the alternative names of the subject
  pub dns_names : List Bytes

-- What both authorities take from `http`, `rustls` and `moka`.
pub record Serving : Type 1 where
  pub Authority : Type 0
  pub host : Authority → Bytes
  pub CertificateDer : Type 0
  pub says : CertificateDer → Contents
  pub PrivateKey : Type 0
  -- `ServerConfig::builder().with_no_client_auth().with_single_cert(certs, key)`
  pub ServerConfig : Type 0
  pub with_single_cert : List CertificateDer → PrivateKey → Option ServerConfig
  pub cert_chain : ServerConfig → List CertificateDer
  pub alpn_protocols : ServerConfig → List Bytes
  pub set_alpn_protocols : List Bytes → ServerConfig → ServerConfig
  -- `moka::future::Cache`, with the clock as an argument of its operations
  pub Cache : Type 0
  -- `Cache::builder().max_capacity(..).time_to_live(..).build()`
  pub new_cache : (max_capacity time_to_live : ℕ) → Cache
  pub get : Time → Authority → Cache → Option ServerConfig × Cache
  pub insert : Time → Authority → ServerConfig → Cache → Cache
  -- an entry that was inserted at this time is in the cache, which holds each for so long
  pub Holds : Cache → Authority → Time → ServerConfig → Type 0
  pub time_to_live : Cache → ℕ
  pub cert_chain-with_single_cert :
      (certs : List CertificateDer) (key : PrivateKey) (cfg : ServerConfig)
      → with_single_cert certs key ≡ some cfg
      → cert_chain cfg ≡ certs
  pub cert_chain-set_alpn_protocols :
      (protocols : List Bytes) (cfg : ServerConfig)
      → cert_chain (set_alpn_protocols protocols cfg) ≡ cert_chain cfg
  pub alpn_protocols-set_alpn_protocols :
      (protocols : List Bytes) (cfg : ServerConfig)
      → alpn_protocols (set_alpn_protocols protocols cfg) ≡ protocols
  -- A new cache is empty, no operation adds an entry but an insertion its own, and what `get`
  -- returns is an entry for the key that is not older than the cache's time to live.
  pub Holds-new_cache :
      (capacity ttl : ℕ) (a : Authority) (t : Time) (cfg : ServerConfig)
      → Holds (new_cache capacity ttl) a t cfg
      → ⊥
  pub Holds-get :
      (now : Time) (a b : Authority) (c : Cache) (t : Time) (cfg : ServerConfig)
      → Holds (get now a c).1 b t cfg
      → Holds c b t cfg
  pub Holds-insert :
      (now : Time) (a b : Authority) (c : Cache) (t : Time) (new cfg : ServerConfig)
      → Holds (insert now a new c) b t cfg
      → ((b ≡ a) × (t ≡ now) × (cfg ≡ new)) ⊎ Holds c b t cfg
  pub get-Holds :
      (now : Time) (a : Authority) (c : Cache) (cfg : ServerConfig)
      → (get now a c).0 ≡ some cfg
      → (t : Time) × Holds c a t cfg × (now < t + time_to_live c)
  pub time_to_live-new_cache : (capacity ttl : ℕ) → time_to_live (new_cache capacity ttl) ≡ ttl
  pub time_to_live-get :
      (now : Time) (a : Authority) (c : Cache) → time_to_live (get now a c).1 ≡ time_to_live c
  pub time_to_live-insert :
      (now : Time) (a : Authority) (cfg : ServerConfig) (c : Cache)
      → time_to_live (insert now a cfg c) ≡ time_to_live c

-- A failed `expect`.
abbrev pub expect : {A : Type 0} → Option A → Outcome A
expect none = panic
expect (some a) = done a

-- An authority as far as `gen_server_config` goes: its key, and its `gen_cert`, which is given the
-- time and what the random generator draws.
pub record Issuer (k : Serving) (Drawn : Type 0) : Type 0 where
  pub private_key : k.PrivateKey
  pub gen_cert : Time → Drawn → k.Authority → Outcome k.CertificateDer

-- `http2` says whether the feature of that name is on.
abbrev pub protocols : Bool → List Bytes
protocols http2 = if http2 then codes "h2" ∷ codes "http/1.1" ∷ [] else codes "http/1.1" ∷ []

-- The configuration with a certificate.
unfoldable pub configure :
    (k : Serving) → Bool → k.PrivateKey → k.CertificateDer → Outcome k.ServerConfig
configure k http2 key cert =
    and_then (expect (k.with_single_cert (cert ∷ []) key))
      λ server_cfg. done (k.set_alpn_protocols (protocols http2) server_cfg)

module _ (k : Serving) (http2 : Bool) {Drawn : Type 0} where
  open k use {Authority, ServerConfig, Cache}

  -- A new configuration.
  unfoldable pub make_config : Issuer k Drawn → Time → Drawn → Authority → Outcome ServerConfig
  unfolding configure
  make_config i now drawn authority =
      and_then (i.gen_cert now drawn authority) λ cert. configure k http2 i.private_key cert

  -- It is made and cached.
  generate : Issuer k Drawn → Time → Drawn → Authority → Cache → Outcome (ServerConfig × Cache)
  generate i now drawn authority cache =
      and_then (make_config i now drawn authority)
        λ server_cfg. done (server_cfg, k.insert now authority server_cfg cache)

  use_cached :
      Issuer k Drawn
      → Time
      → Drawn
      → Authority
      → Option ServerConfig × Cache
      → Outcome (ServerConfig × Cache)
  use_cached i now drawn authority (some server_cfg, cache) = done (server_cfg, cache)
  use_cached i now drawn authority (none, cache) = generate i now drawn authority cache

  -- `gen_server_config`, with the cache as a state.
  unfoldable pub gen_server_config :
      Issuer k Drawn → Time → Drawn → Authority → Cache → Outcome (ServerConfig × Cache)
  unfolding use_cached generate make_config
  gen_server_config i now drawn authority cache =
      use_cached i now drawn authority (k.get now authority cache)
