-- ===== src/Authority/Openssl/Issuing.antt =====
-- What the authority of src/certificate_authority/openssl_authority.rs issues.
use hudsucker.Prelude.{
  ℕ, ◌-◌, ◌≤◌, ◌≡◌, refl, ap, some, ◌∙◌, Bool, List, [], ◌∷◌, Bytes, done, and_then, Result, ok,
  err, Result-cases, inl, inr, arith,
}
use mathlib.Core.Path.{fun_ext}
use hudsucker.Authority.{
  Time, cache_ttl, not_before_offset, protocols, Serving, configure, make_config,
}
use hudsucker.Prelude.Int.{sub_overflows}
use hudsucker.Authority.Certificate.{Serves, IsSound}
use hudsucker.Authority.Validity.{
  and_then-eq-done, Certifying, CanIssue, gen_server_config-Serves, new_cache-IsSound,
}
use hudsucker.Authority.Openssl.{
  Openssl, OpensslAuthority, since_epoch, checked, new, unwrap, named, extended, signed, begun,
  after_begun, after_named, gen_cert, issuer, openssl_server_config,
}
use hudsucker.Authority.Series.{Call, AllServe, Calls, serve_all, serve_all-AllServe}
use hudsucker.Authority.Concurrent.{Reach, System, returned}
use hudsucker.Authority.Concurrent.Safety.{start, Reach-Serves}
use hudsucker.Authority.Openssl.Ready.{NoErrors, gen_cert-ok}
use hudsucker.Authority.Openssl.Certifying.{IsInRange, unwrap-eq-done, gen_cert-Certifies}

module _ {k : Serving} (o : Openssl k) where
  -- Nothing stands in the way of a certificate: the clock is within range, OpenSSL reports no
  -- error, and the key goes with the certificate.
  pub record IsReady (self : OpensslAuthority o) (now : Time) (drawn : Result Bytes o.ErrorStack)
      (a : k.Authority) : Type 0 where
    pub late : o.unix_epoch ≤ now
    pub early : IsInRange o now
    pub no_errors : NoErrors o self (now - o.unix_epoch) drawn a
    pub accepts :
        (cert : k.CertificateDer)
        → (cfg : k.ServerConfig) × (k.with_single_cert (cert ∷ []) self.private_key ≡ some cfg)

  pub openssl-Certifying :
      (http2 : Bool) (self : OpensslAuthority o) (now : Time)
      → IsInRange o now
      → Certifying k http2 (issuer o self) now
  openssl-Certifying http2 self now in_range drawn a cert e =
      let (r, made, is_ok) = and_then-eq-done (gen_cert o self now drawn a) (unwrap o) e in
      gen_cert-Certifies o self now drawn a cert in_range
        (made ∙ ap done (unwrap-eq-done o r is_ok))

  ready-CanIssue :
      (http2 : Bool) (self : OpensslAuthority o) (now : Time) (drawn : Result Bytes o.ErrorStack)
      (a : k.Authority)
      → IsReady self now drawn a
      → CanIssue k http2 (issuer o self) now drawn a
  unfolding make_config configure
  ready-CanIssue http2 self now drawn a ready =
      let (cert, made) = gen_cert-ok o self now drawn a ready.late ready.early ready.no_errors in
      let (cfg, accepted) = ready.accepts cert in
      record {
        certifying = openssl-Certifying http2 self now ready.early;
        makes = (k.set_alpn_protocols (protocols http2) cfg, rw (made, accepted) refl);
      }

  module _ (http2 : Bool) (pkey : o.PKey) (private_key : k.PrivateKey) (ca_cert : o.X509)
      (hash : o.MessageDigest) (cache_size : ℕ) where
    -- The authority that is made with these, and with this encoded key.
    abbrev pub made : OpensslAuthority o
    made = record {
      pkey = pkey;
      private_key = private_key;
      ca_cert = ca_cert;
      hash = hash;
      cache = k.new_cache cache_size cache_ttl;
    }

    -- The authority after calls: only the cache may have changed.
    abbrev pub IsSame : OpensslAuthority o → Time → Type 0
    IsSame self now =
        (cache : k.Cache) × (self ≡ record made { cache = cache }) × IsSound k http2 0 cache now

    after_begun_cache :
        (cache : k.Cache) (secs : ℕ) (drawn : Result Bytes o.ErrorStack) (a : k.Authority)
        (b : Result o.X509Builder o.ErrorStack)
        → after_begun o (record made { cache = cache }) secs drawn a b
          ≡ after_begun o made secs drawn a b
    unfolding after_begun extended signed
    after_begun_cache cache secs drawn a (ok b) = refl
    after_begun_cache cache secs drawn a (err e) = refl

    gen_cert_cache :
        (cache : k.Cache) (now : Time) (drawn : Result Bytes o.ErrorStack) (a : k.Authority)
        → gen_cert o (record made { cache = cache }) now drawn a ≡ gen_cert o made now drawn a
    unfolding gen_cert after_named extended signed
    gen_cert_cache cache now drawn a = elim (Result-cases (named o a)) [
      | inl (b, is_named) ↦ rw is_named (
          ap
            (λ f.
              and_then (since_epoch o now)
                (λ secs. and_then (checked o (sub_overflows secs not_before_offset)) (λ _. f secs)))
            (fun_ext λ secs. after_begun_cache cache secs drawn a (begun o secs b)))
      | inr (e, failed) ↦ rw failed refl
    ]

    -- What it issues does not depend on the cache.
    issuer_cache : (cache : k.Cache) → issuer o (record made { cache = cache }) ≡ issuer o made
    issuer_cache cache =
        ap
          (λ f. record {
            private_key = private_key;
            gen_cert = λ now drawn a. and_then (f now drawn a) (unwrap o);
          })
          (fun_ext λ now. fun_ext λ drawn. fun_ext λ a. gen_cert_cache cache now drawn a)

    openssl_server_config-Serves :
        (self : OpensslAuthority o) (past now : Time) (drawn : Result Bytes o.ErrorStack)
        (a : k.Authority)
        → IsSame self past
        → past ≤ now
        → IsReady made now drawn a
        → (cfg : k.ServerConfig) × (self' : OpensslAuthority o) × (openssl_server_config o http2
              self now drawn a
            ≡ done (cfg, self'))
          × Serves k http2 0 a now cfg
          × IsSame self' now
    unfolding openssl_server_config
    openssl_server_config-Serves self past now drawn a (cache, same, sound) later ready =
        let (cfg, cache', answered, serves, sound') =
          gen_server_config-Serves k http2 (issuer o made) past now drawn a cache sound later
            (ready-CanIssue http2 made now drawn a ready) in
        (
          cfg,
          record made { cache = cache' },
          rw (same, issuer_cache cache) (rw answered refl),
          serves,
          (cache', refl, sound'),
        )

    -- If the key can be encoded, an authority is made, and answers any series of calls in the order
    -- of time, if at each of them the clock stands after 1970 and so that the end of a certificate
    -- can be told in 64 bits, no operation of OpenSSL fails, and the key goes with the certificate:
    -- each call returns a configuration, whether a new one or one that was cached, with one
    -- certificate, which names the host of that call and is valid at its time and for at least half
    -- of a certificate's lifetime, less a minute, after it.
    pub openssl-AllServe :
        (calls : List (Call k http2 (Result Bytes o.ErrorStack)))
        → o.private_key_to_pkcs8 pkey ≡ ok private_key
        → Calls k http2 (Result Bytes o.ErrorStack) (IsReady made) 0 calls
        → (cfgs : List k.ServerConfig) × (and_then (new o pkey ca_cert hash cache_size) (λ self.
              serve_all k http2
                (Result Bytes o.ErrorStack)
                (openssl_server_config o http2)
                self
                calls)
            ≡ done cfgs)
          × AllServe k http2 (Result Bytes o.ErrorStack) calls cfgs
    unfolding new
    openssl-AllServe calls encoded ready =
        let (cfgs, served, serve) =
          serve_all-AllServe k http2 (Result Bytes o.ErrorStack) (openssl_server_config o http2)
            (IsReady made) IsSame openssl_server_config-Serves made 0 calls
            (made.cache, refl, new_cache-IsSound k http2 (issuer o made) 0 cache_size 0) ready in
        (cfgs, rw encoded served, serve)

    -- Calls of a new authority overlap in any way, while the end of a certificate can be told in 64
    -- bits: each waits at its two operations on the cache, and others run meanwhile. If each
    -- inserts what it made within a delay, every call that returned did so with a configuration
    -- that has one certificate, which names the host that the call asked for, and is valid at the
    -- time of the return and for at least half of a certificate's lifetime, less a minute and the
    -- delay, after it.
    pub openssl-Reach-Serves :
        (delay : ℕ) (now : Time) (authorities : ℕ → k.Authority)
        {t : System k http2 (issuer o made) delay}
        → IsInRange o t.now
        → Reach k http2
            (issuer o made)
            delay
            (start k http2 (issuer o made) delay now cache_size authorities)
            t
        → (n : ℕ) (at : Time) (cfg : k.ServerConfig) → (t.call n).stage ≡ returned at cfg
        → Serves k http2 delay (authorities n) at cfg
    openssl-Reach-Serves delay now authorities in_range reach n at cfg e =
        Reach-Serves k http2 (issuer o made) delay now cache_size authorities
          (λ now' before. openssl-Certifying http2 made now' (omega (arith, in_range, before)))
          reach n at cfg e
