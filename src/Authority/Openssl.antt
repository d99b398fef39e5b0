-- ===== src/Authority/Openssl.antt =====
-- src/certificate_authority/openssl_authority.rs: the authority that makes its certificates with
-- the crate `openssl`, in a build with overflow checks or without.
pub mod Library
pub mod Times
pub mod Built
pub mod Certifying
pub mod Ready
pub mod Issuing
use hudsucker.Prelude.{
  ℕ, ◌+◌, ◌-◌, ◌≡◌, Bool, List, [], ◌∷◌, ◌++◌, flat_map, Bytes, codes, ltb, if◌then◌else◌, ◌&&◌,
  Outcome, done, panic, and_then, Result, ok, err, ◌>>=◌,
}
use hudsucker.Prelude.Int.{
  ℤ, pos_part, neg_part, signed64, add_i64, sub_i64, add_overflows, sub_overflows,
}
use hudsucker.Authority.{
  Time, ttl_secs, cache_ttl, not_before_offset, Serving, Issuer, gen_server_config,
}
pub use Library.{Fields, Openssl}

-- The Unix times of a certificate that is made so many seconds after 1970: `as i64` keeps the bits.
abbrev pub not_before_unix : ℕ → ℕ
not_before_unix secs = sub_i64 secs not_before_offset

abbrev pub not_after_unix : ℕ → ℕ
not_after_unix secs = add_i64 (not_before_unix secs) ttl_secs

module _ {k : Serving} (o : Openssl k) where
  open k use {Authority, CertificateDer, ServerConfig, Cache}
  open o use {ErrorStack, PKey, X509, X509Builder}

  pub record OpensslAuthority : Type 0 where
    pub pkey : PKey
    pub private_key : k.PrivateKey
    pub ca_cert : X509
    pub hash : o.MessageDigest
    pub cache : Cache

  -- A failed `expect` or `unwrap_or_else` of a result.
  abbrev pub unwrap : {A : Type 0} → Result A ErrorStack → Outcome A
  unwrap (ok a) = done a
  unwrap (err e) = panic

  unfoldable pub new : PKey → X509 → o.MessageDigest → ℕ → Outcome OpensslAuthority
  new pkey ca_cert hash cache_size = and_then (unwrap (o.private_key_to_pkcs8 pkey)) λ private_key.
      done (record {
        pkey = pkey;
        private_key = private_key;
        ca_cert = ca_cert;
        hash = hash;
        cache = k.new_cache cache_size cache_ttl;
      })

  -- The parts of `gen_cert` before and after it asks the clock.
  unfoldable pub named : Authority → Result X509Builder ErrorStack
  named authority = do
    name_builder ← o.new_name
    name_builder ← o.append_entry_by_text (codes "CN") (k.host authority) name_builder
    let name = o.build_name name_builder
    x509_builder ← o.new_x509
    x509_builder ← o.set_subject_name name x509_builder
    o.set_version 2 x509_builder

  unfoldable pub begun : ℕ → X509Builder → Result X509Builder ErrorStack
  begun secs x509_builder = do
    not_before ← o.from_unix (not_before_unix secs)
    o.set_not_before not_before x509_builder

  unfoldable pub dated : ℕ → X509Builder → Result X509Builder ErrorStack
  dated secs x509_builder = do
    not_after ← o.from_unix (not_after_unix secs)
    o.set_not_after not_after x509_builder

  unfoldable pub extended :
      OpensslAuthority → Authority → X509Builder → Result X509Builder ErrorStack
  extended self authority x509_builder = do
    x509_builder ← o.set_pubkey self.pkey x509_builder
    x509_builder ← o.set_issuer_name (o.subject_name self.ca_cert) x509_builder
    alternative_name ← o.dns_extension (k.host authority) self.ca_cert x509_builder
    o.append_extension alternative_name x509_builder

  unfoldable pub signed :
      OpensslAuthority → Result Bytes ErrorStack → X509Builder → Result CertificateDer ErrorStack
  signed self drawn x509_builder = do
    serial_number ← drawn
    serial_number ← o.from_slice serial_number
    serial_number ← o.from_bn serial_number
    x509_builder ← o.set_serial_number serial_number x509_builder
    x509_builder ← o.sign self.pkey self.hash x509_builder
    o.to_der (o.build x509_builder)

  -- `duration_since(UNIX_EPOCH)`, with its `expect`
  unfoldable pub since_epoch : Time → Outcome ℕ
  since_epoch now = if ltb now o.unix_epoch then panic else done (now - o.unix_epoch)

  -- Arithmetic that panics on overflow if it is checked.
  unfoldable pub checked : Bool → Outcome (Unit {0})
  checked overflows = if o.overflow_checks && overflows then panic else done tt

  unfoldable pub after_begun :
      OpensslAuthority
      → ℕ
      → Result Bytes ErrorStack
      → Authority
      → Result X509Builder ErrorStack
      → Outcome (Result CertificateDer ErrorStack)
  after_begun self secs drawn authority (err e) = done (err e)
  after_begun self secs drawn authority (ok x509_builder) =
      and_then (checked (add_overflows (not_before_unix secs) ttl_secs))
        λ _. done (dated secs x509_builder >>= extended self authority >>= signed self drawn)

  unfoldable pub after_named :
      OpensslAuthority
      → Time
      → Result Bytes ErrorStack
      → Authority
      → Result X509Builder ErrorStack
      → Outcome (Result CertificateDer ErrorStack)
  after_named self now drawn authority (err e) = done (err e)
  after_named self now drawn authority (ok x509_builder) = and_then (since_epoch now) λ secs.
      and_then (checked (sub_overflows secs not_before_offset))
        λ _. after_begun self secs drawn authority (begun secs x509_builder)

  -- `gen_cert`, with the clock and what `rand_bytes` fills in as arguments.
  unfoldable pub gen_cert :
      OpensslAuthority
      → Time
      → Result Bytes ErrorStack
      → Authority
      → Outcome (Result CertificateDer ErrorStack)
  unfolding after_named
  gen_cert self now drawn authority = after_named self now drawn authority (named authority)

  abbrev pub issuer : OpensslAuthority → Issuer k (Result Bytes ErrorStack)
  issuer self = record {
    private_key = self.private_key;
    gen_cert = λ now drawn authority. and_then (gen_cert self now drawn authority) unwrap;
  }

  -- `gen_server_config`: the authority after it, and the configuration.
  unfoldable pub openssl_server_config :
      Bool
      → OpensslAuthority
      → Time
      → Result Bytes ErrorStack
      → Authority
      → Outcome (ServerConfig × OpensslAuthority)
  openssl_server_config http2 self now drawn authority =
      and_then (gen_server_config k http2 (issuer self) now drawn authority self.cache)
        λ out. done (out.0, record self { cache = out.1 })
