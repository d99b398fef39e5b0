-- ===== src/Examples/Programs/Authorities.antt =====
-- The authorities that the programs examples/noop.rs, examples/log.rs and examples/openssl.rs make,
-- and when they make none.
use hudsucker.Prelude.{
  ◌≡◌, refl, ◌⊎◌, inl, inr, none, some, Option-cases, Bytes, done, panic, ok, err, Result-cases,
}
use hudsucker.Authority.{Serving, cache_ttl}
use hudsucker.Authority.Rcgen.{Rcgen, RcgenAuthority}
use hudsucker.Authority.Openssl.{Openssl, OpensslAuthority}
use hudsucker.Examples.Programs.{RcgenKeys, OpensslKeys, rcgen_ca, openssl_ca}
use hudsucker.Authority.Rcgen
use hudsucker.Authority.Openssl

module _ {v : Serving} {g : Rcgen v} (keys : RcgenKeys g) (key cert : Bytes) where
  -- The key or the certificate cannot be read, or the certificate cannot be signed.
  pub data RcgenRefuses : Type 0 where
    no_key : keys.key_pair_from_pem key ≡ none → RcgenRefuses
    no_cert : keys.from_ca_cert_pem cert ≡ none → RcgenRefuses
    unsigned :
        (key_pair : g.KeyPair) (params : keys.CaParams)
        → keys.key_pair_from_pem key ≡ some key_pair
        → keys.from_ca_cert_pem cert ≡ some params
        → keys.self_signed params key_pair ≡ none
        → RcgenRefuses

  -- The new authority for the key and the signed certificate, with a cache of 1000 entries.
  pub record RcgenMakes (ca : RcgenAuthority g) : Type 0 where
    pub key_pair : g.KeyPair
    pub params : keys.CaParams
    pub ca_cert : g.Certificate
    pub is_key : keys.key_pair_from_pem key ≡ some key_pair
    pub is_cert : keys.from_ca_cert_pem cert ≡ some params
    pub is_signed : keys.self_signed params key_pair ≡ some ca_cert
    pub is_new : ca ≡ Rcgen.new g key_pair ca_cert 1000

  pub rcgen_ca-cases :
      ((ca : RcgenAuthority g) × (rcgen_ca keys key cert ≡ done ca) × RcgenMakes ca)
      ⊎ (RcgenRefuses × (rcgen_ca keys key cert ≡ panic))
  unfolding rcgen_ca
  rcgen_ca-cases = elim (Option-cases (keys.key_pair_from_pem key)) [
    | inl lacks ↦ inr (no_key lacks, rw lacks refl)
    | inr (key_pair, is_key) ↦ elim (Option-cases (keys.from_ca_cert_pem cert)) [
      | inl lacks ↦ inr (no_cert lacks, rw (is_key, lacks) refl)
      | inr (params, is_cert) ↦ elim (Option-cases (keys.self_signed params key_pair)) [
        | inl lacks ↦
            inr (unsigned key_pair params is_key is_cert lacks, rw (is_key, is_cert, lacks) refl)
        | inr (ca_cert, is_signed) ↦ inl (
          Rcgen.new g key_pair ca_cert 1000,
          rw (is_key, is_cert, is_signed) refl,
          record {
            key_pair = key_pair;
            params = params;
            ca_cert = ca_cert;
            is_key = is_key;
            is_cert = is_cert;
            is_signed = is_signed;
            is_new = refl;
          },
        )
      ]
    ]
  ]

module _ {v : Serving} {o : Openssl v} (keys : OpensslKeys o) (key cert : Bytes) where
  -- The key or the certificate cannot be read, or the key cannot be encoded.
  pub data OpensslRefuses : Type 0 where
    no_key : (e : o.ErrorStack) → keys.private_key_from_pem key ≡ err e → OpensslRefuses
    no_cert : (e : o.ErrorStack) → keys.x509_from_pem cert ≡ err e → OpensslRefuses
    not_encoded :
        (pkey : o.PKey) (e : o.ErrorStack)
        → keys.private_key_from_pem key ≡ ok pkey
        → o.private_key_to_pkcs8 pkey ≡ err e
        → OpensslRefuses

  -- The new authority for the key and the certificate, with SHA-256 and a cache of 1000 entries.
  pub record OpensslMakes (ca : OpensslAuthority o) : Type 0 where
    pub pkey : o.PKey
    pub ca_cert : o.X509
    pub is_key : keys.private_key_from_pem key ≡ ok pkey
    pub is_cert : keys.x509_from_pem cert ≡ ok ca_cert
    pub is_new : Openssl.new o pkey ca_cert keys.sha256 1000 ≡ done ca

  pub openssl_ca-cases :
      ((ca : OpensslAuthority o) × (openssl_ca keys key cert ≡ done ca) × OpensslMakes ca)
      ⊎ (OpensslRefuses × (openssl_ca keys key cert ≡ panic))
  unfolding openssl_ca Openssl.new
  openssl_ca-cases = elim (Result-cases (keys.private_key_from_pem key)) [
    | inr (e, lacks) ↦ inr (no_key e lacks, rw lacks refl)
    | inl (pkey, is_key) ↦ elim (Result-cases (keys.x509_from_pem cert)) [
      | inr (e, lacks) ↦ inr (no_cert e lacks, rw (is_key, lacks) refl)
      | inl (ca_cert, is_cert) ↦ elim (Result-cases (o.private_key_to_pkcs8 pkey)) [
        | inr (e, lacks) ↦ inr (not_encoded pkey e is_key lacks, rw (is_key, is_cert, lacks) refl)
        | inl (private_key, encoded) ↦ inl (
          record {
            pkey = pkey;
            private_key = private_key;
            ca_cert = ca_cert;
            hash = keys.sha256;
            cache = v.new_cache 1000 cache_ttl;
          },
          rw (is_key, is_cert, encoded) refl,
          record {
            pkey = pkey;
            ca_cert = ca_cert;
            is_key = is_key;
            is_cert = is_cert;
            is_new = rw encoded refl;
          },
        )
      ]
    ]
  ]
