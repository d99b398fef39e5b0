-- ===== src/Authority/Rcgen/Issuing.antt =====
-- What the authority of src/certificate_authority/rcgen_authority.rs issues.
use hudsucker.Prelude.{
  ℕ, ◌+◌, ◌-◌, ◌≤◌, ◌<◌, ◌≡◌, refl, Bool, some, List, [], ◌∷◌, All, done, arith,
}
use hudsucker.Authority.{
  Time, ttl_secs, not_before_offset, protocols, Serving, expect, configure, make_config,
}
use hudsucker.Authority.Certificate.{Certifies, Serves, IsSound}
use hudsucker.Authority.Validity.{
  and_then-eq-done, expect-eq-done, Certifying, CanIssue, gen_server_config-Serves,
  new_cache-IsSound,
}
use hudsucker.Authority.Series.{Call, AllServe, Calls, serve_all, serve_all-AllServe}
use hudsucker.Authority.Concurrent.{Reach, System, returned}
use hudsucker.Authority.Concurrent.Safety.{start, Reach-Serves}
use hudsucker.Authority.Rcgen.{
  Rcgen, RcgenAuthority, rcgen_server_config, new, before, after, params_for, gen_cert, issuer,
  CertificateParams,
}

module _ {k : Serving} (g : Rcgen k) where
  before-eq-done : (t d : ℕ) {u : ℕ} → before g t d ≡ done u → (u + d ≡ t)
  unfolding before
  before-eq-done t d e = ground arith

  after-eq-done : (t d : ℕ) {u : ℕ} → after g t d ≡ done u → u ≡ t + d
  unfolding after
  after-eq-done t d e = ground arith

  -- A certificate that is made is for the time and the authority.
  gen_cert-Certifies :
      (self : RcgenAuthority g) (now : Time) (serial : ℕ) (a : k.Authority)
      (cert : k.CertificateDer)
      → gen_cert g self now serial a ≡ done cert
      → Certifies k a now cert
  unfolding gen_cert params_for
  gen_cert-Certifies self now serial a cert e =
      let (not_before, is_before, e1) = and_then-eq-done (before g now not_before_offset) _ e in
      let (not_after, is_after, e2) = and_then-eq-done (after g not_before ttl_secs) _ e1 in
      let (name, ascii, e3) = and_then-eq-done (expect (g.ia5_string (k.host a))) _ e2 in
      let params = params_for g serial a not_before not_after name in
      let says =
        g.says-signed_by params self.key_pair self.key_pair self.ca_cert cert
          (expect-eq-done (g.signed_by params self.key_pair self.ca_cert self.key_pair) e3) in
      record {
        common_name = rw says refl;
        names =
            rw
              (
                says,
                g.ia5_bytes-ia5_string (k.host a) name
                    (expect-eq-done (g.ia5_string (k.host a)) ascii),
              )
              refl;
        from = rw says (before-eq-done now not_before_offset is_before);
        until = rw says (
            omega (
              arith,
              before-eq-done now not_before_offset is_before,
              after-eq-done not_before ttl_secs is_after,
            ));
      }

  pub rcgen-Certifying :
      (http2 : Bool) (self : RcgenAuthority g) (now : Time) → Certifying k http2 (issuer g self) now
  rcgen-Certifying http2 self now serial a cert e = gen_cert-Certifies self now serial a cert e

  -- Nothing stands in the way of a certificate for an authority at a time: the clock is far enough
  -- from both ends of its range, the host is ASCII, and the keys are in order.
  pub record IsReady (self : RcgenAuthority g) (now : Time) (serial : ℕ) (a : k.Authority)
      : Type 0 where
    pub late : not_before_offset ≤ now
    pub early : now + ttl_secs ≤ g.max_time
    pub ascii : All (λ c. c < 128) (k.host a)
    pub signs :
        (params : CertificateParams g.Ia5String)
        → (cert : k.CertificateDer) × (g.signed_by params self.key_pair self.ca_cert self.key_pair
            ≡ some cert)
    pub accepts :
        (cert : k.CertificateDer)
        → (cfg : k.ServerConfig) × (k.with_single_cert (cert ∷ []) self.private_key ≡ some cfg)

  before_lem : (t d : ℕ) → d ≤ t → before g t d ≡ done (t - d)
  unfolding before
  before_lem t d h = ground arith

  after_lem : (t d : ℕ) → t + d ≤ g.max_time → after g t d ≡ done (t + d)
  unfolding after
  after_lem t d h = ground arith

  ready-CanIssue :
      (http2 : Bool) (self : RcgenAuthority g) (now : Time) (serial : ℕ) (a : k.Authority)
      → IsReady self now serial a
      → CanIssue k http2 (issuer g self) now serial a
  unfolding gen_cert make_config configure
  ready-CanIssue http2 self now serial a ready = record {
    certifying = λ n b cert e. gen_cert-Certifies self now n b cert e;
    makes = makes;
  }
    where
      makes : (cfg : k.ServerConfig) × (make_config k http2 (issuer g self) now serial a ≡ done cfg)
      makes =
          let (name, ascii) = g.ia5_string-some (k.host a) ready.ascii in
          let not_before = now - not_before_offset in
          let (cert, signed) =
            ready.signs (params_for g serial a not_before (not_before + ttl_secs) name) in
          let (cfg, accepted) = ready.accepts cert in
          (
            k.set_alpn_protocols (protocols http2) cfg,
            rw
                (
                  before_lem now not_before_offset ready.late,
                  after_lem not_before ttl_secs (omega (arith, ready.early)),
                  ascii,
                  signed,
                  accepted,
                )
                refl,
          )

  module _ (http2 : Bool) (key_pair : g.KeyPair) (ca_cert : g.Certificate) (cache_size : ℕ) where
    -- The authority that is made with these.
    abbrev pub made : RcgenAuthority g
    made = new g key_pair ca_cert cache_size

    -- The authority after calls: only the cache may have changed.
    abbrev pub IsSame : RcgenAuthority g → Time → Type 0
    IsSame self now =
        (cache : k.Cache) × (self ≡ record made { cache = cache }) × IsSound k http2 0 cache now

    rcgen_server_config-Serves :
        (self : RcgenAuthority g) (past now : Time) (serial : ℕ) (a : k.Authority)
        → IsSame self past
        → past ≤ now
        → IsReady made now serial a
        → (cfg : k.ServerConfig) × (self' : RcgenAuthority g) × (rcgen_server_config g http2 self
              now serial a
            ≡ done (cfg, self'))
          × Serves k http2 0 a now cfg
          × IsSame self' now
    unfolding rcgen_server_config gen_cert
    rcgen_server_config-Serves self past now serial a (cache, same, sound) later ready =
        let (cfg, cache', answered, serves, sound') =
          gen_server_config-Serves k http2 (issuer g made) past now serial a cache sound later
            (ready-CanIssue http2 made now serial a ready) in
        (
          cfg,
          record made { cache = cache' },
          rw same (rw answered refl),
          serves,
          (cache', refl, sound'),
        )

    -- A new authority answers any series of calls in the order of time, if at each of them the clock
    -- is within range, the host is ASCII, and the keys sign certificates and go with them: each call
    -- returns a configuration, whether a new one or one that was cached, with one certificate, which
    -- names the host of that call and is valid at its time and for at least half of a certificate's
    -- lifetime, less a minute, after it.
    pub rcgen-AllServe :
        (calls : List (Call k http2 ℕ))
        → Calls k http2 ℕ (IsReady made) 0 calls
        → (cfgs : List k.ServerConfig) × (serve_all k http2 ℕ
              (rcgen_server_config g http2)
              made
              calls
            ≡ done cfgs)
          × AllServe k http2 ℕ calls cfgs
    rcgen-AllServe calls ready =
        serve_all-AllServe k http2 ℕ (rcgen_server_config g http2) (IsReady made) IsSame
          rcgen_server_config-Serves made 0 calls
          (made.cache, refl, new_cache-IsSound k http2 (issuer g made) 0 cache_size 0) ready

    -- Calls of a new authority overlap in any way: each waits at its two operations on the cache,
    -- and others run meanwhile; two calls for one host may both find nothing and both insert. If
    -- each inserts what it made within a delay, every call that returned did so with a
    -- configuration that has one certificate, which names the host that the call asked for, and is
    -- valid at the time of the return and for at least half of a certificate's lifetime, less a
    -- minute and the delay, after it.
    pub rcgen-Reach-Serves :
        (delay : ℕ) (now : Time) (authorities : ℕ → k.Authority)
        {t : System k http2 (issuer g made) delay}
        → Reach k http2
            (issuer g made)
            delay
            (start k http2 (issuer g made) delay now cache_size authorities)
            t
        → (n : ℕ) (at : Time) (cfg : k.ServerConfig) → (t.call n).stage ≡ returned at cfg
        → Serves k http2 delay (authorities n) at cfg
    rcgen-Reach-Serves delay now authorities reach n at cfg e =
        Reach-Serves k http2 (issuer g made) delay now cache_size authorities
          (λ now' _. rcgen-Certifying http2 made now') reach n at cfg e
