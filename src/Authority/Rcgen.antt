-- ===== src/Authority/Rcgen.antt =====
-- src/certificate_authority/rcgen_authority.rs: the authority that makes its certificates with the
-- crate `rcgen`.
pub mod Issuing
use hudsucker.Prelude.{
  ℕ, ◌+◌, ◌-◌, ◌<◌, ◌≡◌, if◌then◌else◌, Option, some, List, [], ◌∷◌, map, Bool, Bytes, All, ltb,
  Outcome, done, panic, and_then,
}
use hudsucker.Authority.{
  Time, ttl_secs, cache_ttl, not_before_offset, Serving, Issuer, expect, gen_server_config,
}

-- What of `rcgen::CertificateParams` the module sets; the rest is as `default` leaves it.
pub record CertificateParams (Ia5String : Type 0) : Type 0 where
  pub serial_number : Option ℕ
  pub not_before : Time
  pub not_after : Time
  pub common_name : Bytes
  -- `SanType::DnsName`
  pub subject_alt_names : List Ia5String

-- What the module takes from `rcgen` and `time`. The first moment of `Time` is the first that
-- `OffsetDateTime` can hold.
pub record Rcgen (k : Serving) : Type 1 where
  -- the last moment that `OffsetDateTime` can hold
  pub max_time : Time
  pub Ia5String : Type 0
  pub ia5_string : Bytes → Option Ia5String
  pub ia5_bytes : Ia5String → Bytes
  pub KeyPair : Type 0
  pub Certificate : Type 0
  -- `PrivateKeyDer::from(PrivatePkcs8KeyDer::from(key_pair.serialize_der()))`
  pub private_key : KeyPair → k.PrivateKey
  -- `params.signed_by(public key, issuer, issuer's key)`
  pub signed_by :
      CertificateParams Ia5String → KeyPair → Certificate → KeyPair → Option k.CertificateDer
  pub ia5_string-some :
      (b : Bytes) → All (λ c. c < 128) b → (s : Ia5String) × (ia5_string b ≡ some s)
  pub ia5_bytes-ia5_string : (b : Bytes) (s : Ia5String) → ia5_string b ≡ some s → ia5_bytes s ≡ b
  -- A certificate says what its parameters say.
  pub says-signed_by :
      (params : CertificateParams Ia5String) (key issuer_key : KeyPair) (issuer : Certificate)
      (cert : k.CertificateDer)
      → signed_by params key issuer issuer_key ≡ some cert
      → k.says cert ≡ record {
        not_before = params.not_before;
        not_after = params.not_after;
        common_name = params.common_name;
        dns_names = map ia5_bytes params.subject_alt_names;
      }

module _ {k : Serving} (g : Rcgen k) where
  open k use {Authority, CertificateDer, ServerConfig, Cache}
  open g use {Ia5String}

  pub record RcgenAuthority : Type 0 where
    pub key_pair : g.KeyPair
    pub ca_cert : g.Certificate
    pub private_key : k.PrivateKey
    pub cache : Cache

  abbrev pub new : g.KeyPair → g.Certificate → ℕ → RcgenAuthority
  new key_pair ca_cert cache_size = record {
    key_pair = key_pair;
    ca_cert = ca_cert;
    private_key = g.private_key key_pair;
    cache = k.new_cache cache_size cache_ttl;
  }

  -- `OffsetDateTime - Duration` and `OffsetDateTime + Duration` panic out of range.
  before : Time → ℕ → Outcome Time
  before t d = if ltb t d then panic else done (t - d)

  after : Time → ℕ → Outcome Time
  after t d = if ltb g.max_time (t + d) then panic else done (t + d)

  params_for : ℕ → Authority → Time → Time → Ia5String → CertificateParams Ia5String
  params_for serial authority not_before not_after name = record {
    serial_number = some serial;
    not_before = not_before;
    not_after = not_after;
    common_name = k.host authority;
    subject_alt_names = name ∷ [];
  }

  -- `gen_cert`, with the clock and the random serial number as arguments.
  unfoldable pub gen_cert : RcgenAuthority → Time → ℕ → Authority → Outcome CertificateDer
  unfolding before after params_for
  gen_cert self now serial authority = and_then (before now not_before_offset) λ not_before.
      and_then (after not_before ttl_secs) λ not_after.
        and_then (expect (g.ia5_string (k.host authority))) λ name. expect (
          g.signed_by (params_for serial authority not_before not_after name) self.key_pair
            self.ca_cert self.key_pair)

  abbrev pub issuer : RcgenAuthority → Issuer k ℕ
  issuer self = record { private_key = self.private_key; gen_cert = gen_cert self }

  -- `gen_server_config`: the authority after it, and the configuration.
  unfoldable pub rcgen_server_config :
      Bool → RcgenAuthority → Time → ℕ → Authority → Outcome (ServerConfig × RcgenAuthority)
  rcgen_server_config http2 self now serial authority =
      and_then (gen_server_config k http2 (issuer self) now serial authority self.cache)
        λ out. done (out.0, record self { cache = out.1 })
