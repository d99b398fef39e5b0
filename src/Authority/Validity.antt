-- ===== src/Authority/Validity.antt =====
-- The configurations that `gen_server_config` of src/certificate_authority/ hands out, those in the
-- cache among them, by what the authority's `gen_cert` makes.
use hudsucker.Prelude.{
  ℕ, ◌≤◌, ◌≡◌, refl, ◌∙◌, inl, inr, Bool, Option, none, some, Option-cases, [], ◌∷◌, Outcome, done,
  panic, and_then, arith, done-injective, done-ne-panic, sym,
}
use hudsucker.Authority.{
  Time, cache_ttl, Serving, Issuer, protocols, configure, make_config, generate, use_cached,
  gen_server_config, expect,
}
use hudsucker.Authority.Certificate.{Certifies, IsMade, Serves, made-Serves, IsEntry, IsSound}

-- What makes the outcome of code after code that may panic.
pub and_then-eq-done :
    {A B : Type 0} (m : Outcome A) (f : A → Outcome B) {b : B}
    → and_then m f ≡ done b
    → (a : A) × (m ≡ done a) × (f a ≡ done b)
and_then-eq-done panic f e = absurd (done-ne-panic (sym e))
and_then-eq-done (done a) f e = (a, refl, e)

pub expect-eq-done : {A : Type 0} (o : Option A) {a : A} → expect o ≡ done a → o ≡ some a
expect-eq-done none e = absurd (done-ne-panic (sym e))
expect-eq-done (some a) e = cc

module _ (k : Serving) (http2 : Bool) {Drawn : Type 0} (i : Issuer k Drawn) where
  open k use {Authority, CertificateDer, ServerConfig, Cache}

  -- The certificates that the authority makes at a time are for that time, and for the authority.
  abbrev pub Certifying : Time → Type 0
  Certifying now =
      (drawn : Drawn) (a : Authority) (cert : CertificateDer)
      → i.gen_cert now drawn a ≡ done cert
      → Certifies k a now cert

  configure-IsMade :
      (a : Authority) (now : Time) (cert : CertificateDer) (cfg : ServerConfig)
      → Certifies k a now cert
      → configure k http2 i.private_key cert ≡ done cfg
      → IsMade k http2 a now cfg
  unfolding configure
  configure-IsMade a now cert cfg certifies e =
      let (bare, made, set) =
        and_then-eq-done (expect (k.with_single_cert (cert ∷ []) i.private_key)) _ e in
      rw (← done-injective set) (record {
        cert = cert;
        chain =
            k.cert_chain-set_alpn_protocols (protocols http2) bare
            ∙ k.cert_chain-with_single_cert (cert ∷ []) i.private_key bare
                (expect-eq-done (k.with_single_cert (cert ∷ []) i.private_key) made);
        certifies = certifies;
        alpn = k.alpn_protocols-set_alpn_protocols (protocols http2) bare;
      })

  pub make_config-IsMade :
      (now : Time) (drawn : Drawn) (a : Authority) (cfg : ServerConfig)
      → Certifying now
      → make_config k http2 i now drawn a ≡ done cfg
      → IsMade k http2 a now cfg
  unfolding make_config
  make_config-IsMade now drawn a cfg certifying e =
      let (cert, made, configured) = and_then-eq-done (i.gen_cert now drawn a) _ e in
      configure-IsMade a now cert cfg (certifying drawn a cert made) configured

  -- Asking the cache, and inserting into it, keep it sound.
  pub get-IsSound :
      (delay : ℕ) (past now : Time) (a : Authority) (cache : Cache)
      → IsSound k http2 delay cache past
      → past ≤ now
      → IsSound k http2 delay (k.get now a cache).1 now
  get-IsSound delay past now a cache sound later = record {
    entries = λ b u cfg holds.
        let (entry, old) = sound.entries b u cfg (k.Holds-get now a b cache u cfg holds) in
        (entry, omega (arith, old, later));
    ttl = k.time_to_live-get now a cache ∙ sound.ttl;
  }

  pub insert-IsSound :
      (delay : ℕ) (now : Time) (a : Authority) (cfg : ServerConfig) (cache : Cache)
      → IsSound k http2 delay cache now
      → IsEntry k http2 delay a now cfg
      → IsSound k http2 delay (k.insert now a cfg cache) now
  insert-IsSound delay now a cfg cache sound entry = record {
    entries = λ b u other holds. elim (k.Holds-insert now a b cache u cfg other holds) [
      | inl (same, at_now, new_cfg) ↦ rw (same, at_now, new_cfg) (entry, omega arith)
      | inr before ↦ sound.entries b u other before
    ];
    ttl = k.time_to_live-insert now a cfg cache ∙ sound.ttl;
  }

  -- What a sound cache returns serves.
  pub get-Serves :
      (delay : ℕ) (past now : Time) (a : Authority) (cache : Cache) (cfg : ServerConfig)
      → IsSound k http2 delay cache past
      → past ≤ now
      → (k.get now a cache).0 ≡ some cfg
      → Serves k http2 delay a now cfg
  get-Serves delay past now a cache cfg sound later found =
      let (u, holds, young) = k.get-Holds now a cache cfg found in
      let (entry, old) = sound.entries a u cfg holds in
      made-Serves k http2 entry.made (omega (arith, entry.in_order, old, later))
        (omega (arith, entry.in_time, young, sound.ttl))

  -- Nothing stands in the way of a configuration for an authority at a time, with what is drawn.
  pub record CanIssue (now : Time) (drawn : Drawn) (a : Authority) : Type 0 where
    pub certifying : Certifying now
    pub makes : (cfg : ServerConfig) × (make_config k http2 i now drawn a ≡ done cfg)

  -- One call: if the cache is sound, time does not run backwards and a configuration can be made,
  -- then one is returned, from the cache or a new one, and serves; the cache is sound again.
  pub gen_server_config-Serves :
      (past now : Time) (drawn : Drawn) (a : Authority) (cache : Cache)
      → IsSound k http2 0 cache past
      → past ≤ now
      → CanIssue now drawn a
      → (cfg : ServerConfig) × (cache' : Cache) × (gen_server_config k http2 i now drawn a cache
          ≡ done (cfg, cache'))
        × Serves k http2 0 a now cfg
        × IsSound k http2 0 cache' now
  unfolding gen_server_config use_cached
  gen_server_config-Serves past now drawn a cache sound later can =
      let sound' = get-IsSound 0 past now a cache sound later in
      elim (Option-cases (k.get now a cache).0) [
        | inl missing ↦
            let (cfg, made) = can.makes in
            let is_made = make_config-IsMade now drawn a cfg can.certifying made in
            (
              cfg,
              k.insert now a cfg (k.get now a cache).1,
              rw (missing, use_cached) (rw (made, generate) refl),
              made-Serves k http2 is_made (omega arith) (omega arith),
              insert-IsSound 0 now a cfg (k.get now a cache).1 sound' (record {
                made_at = now;
                made = is_made;
                in_order = omega arith;
                in_time = omega arith;
              }),
            )
        | inr (cfg, found) ↦ (
          cfg,
          (k.get now a cache).1,
          rw (found, use_cached) refl,
          get-Serves 0 past now a cache cfg sound later found,
          sound',
        )
      ]

  pub new_cache-IsSound :
      (delay capacity : ℕ) (now : Time) → IsSound k http2 delay (k.new_cache capacity cache_ttl) now
  new_cache-IsSound delay capacity now = record {
    entries = λ a u cfg holds. absurd (k.Holds-new_cache capacity cache_ttl a u cfg holds);
    ttl = k.time_to_live-new_cache capacity cache_ttl;
  }
