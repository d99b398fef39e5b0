-- ===== src/Authority/Certificate.antt =====
-- What is asked of the certificates, the configurations and the cache of an authority of
-- src/certificate_authority/.
use hudsucker.Prelude.{ℕ, ◌+◌, ◌≤◌, ◌≡◌, Bool, [], ◌∷◌, arith}
use hudsucker.Authority.{Time, ttl_secs, cache_ttl, not_before_offset, Serving, protocols}

-- A certificate that was made at a time for an authority.
pub record Certifies (k : Serving) (a : k.Authority) (t : Time) (cert : k.CertificateDer)
    : Type 0 where
  pub common_name : (k.says cert).common_name ≡ k.host a
  pub names : (k.says cert).dns_names ≡ k.host a ∷ []
  pub from : (k.says cert).not_before + not_before_offset ≡ t
  pub until : (k.says cert).not_after + not_before_offset ≡ t + ttl_secs

module _ (k : Serving) (http2 : Bool) where
  open k use {Authority, CertificateDer, ServerConfig, Cache}

  -- A configuration that was made at a time for an authority.
  pub record IsMade (a : Authority) (t : Time) (cfg : ServerConfig) : Type 0 where
    pub cert : CertificateDer
    pub chain : k.cert_chain cfg ≡ cert ∷ []
    pub certifies : Certifies k a t cert
    pub alpn : k.alpn_protocols cfg ≡ protocols http2

  -- A configuration that is handed out at a time: its one certificate names the host, and is valid
  -- then and for half of its lifetime, less a minute and the delay, after that.
  pub record Serves (delay : ℕ) (a : Authority) (now : Time) (cfg : ServerConfig) : Type 0 where
    pub cert : CertificateDer
    pub chain : k.cert_chain cfg ≡ cert ∷ []
    pub common_name : (k.says cert).common_name ≡ k.host a
    pub names : (k.says cert).dns_names ≡ k.host a ∷ []
    pub has_begun : (k.says cert).not_before ≤ now
    pub goes_on : now + cache_ttl ≤ (k.says cert).not_after + not_before_offset + delay
    pub alpn : k.alpn_protocols cfg ≡ protocols http2

  pub made-Serves :
      {delay : ℕ} {a : Authority} {t now : Time} {cfg : ServerConfig}
      → IsMade a t cfg
      → t ≤ now
      → now ≤ t + cache_ttl + delay
      → Serves delay a now cfg
  made-Serves m old young = record {
    cert = m.cert;
    chain = m.chain;
    common_name = m.certifies.common_name;
    names = m.certifies.names;
    has_begun = omega (arith, m.certifies.from);
    goes_on = omega (arith, m.certifies.until);
    alpn = m.alpn;
  }

  -- A configuration that was inserted at a time: it was made for the key, and was inserted after
  -- that with no more than the delay.
  pub record IsEntry (delay : ℕ) (a : Authority) (u : Time) (cfg : ServerConfig) : Type 0 where
    pub made_at : Time
    pub made : IsMade a made_at cfg
    pub in_order : made_at ≤ u
    pub in_time : u ≤ made_at + delay

  -- The invariant of the cache.
  pub record IsSound (delay : ℕ) (cache : Cache) (now : Time) : Type 0 where
    pub entries :
        (a : Authority) (u : Time) (cfg : ServerConfig)
        → k.Holds cache a u cfg
        → IsEntry delay a u cfg × (u ≤ now)
    pub ttl : k.time_to_live cache ≡ cache_ttl
