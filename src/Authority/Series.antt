-- ===== src/Authority/Series.antt =====
-- A series of calls of `gen_server_config` of an authority of src/certificate_authority/.
use hudsucker.Prelude.{◌≤◌, ◌≡◌, refl, Bool, List, [], ◌∷◌, Outcome, done, and_then}
use hudsucker.Authority.{Time, Serving}
use hudsucker.Authority.Certificate.{Serves}

module _ (k : Serving) (http2 : Bool) (Drawn : Type 0) where
  open k use {Authority, ServerConfig, Cache}

  -- A call: the time of it, what is drawn, and the authority.
  abbrev pub Call : Type 0
  Call = Time × Drawn × Authority

  -- Each configuration serves its call.
  abbrev pub AllServe : List Call → List ServerConfig → Type 0
  AllServe [] [] = Unit
  AllServe [] (cfg ∷ cfgs) = ⊥
  AllServe (call ∷ calls) [] = ⊥
  AllServe ((now, drawn, a) ∷ calls) (cfg ∷ cfgs) = Serves k http2 0 a now cfg × AllServe calls cfgs

  -- No call is earlier than the one before it, and nothing stands in its way.
  abbrev pub Calls : (Time → Drawn → Authority → Type 0) → Time → List Call → Type 0
  Calls IsReady past [] = Unit
  Calls IsReady past ((now, drawn, a) ∷ calls) =
      (past ≤ now) × IsReady now drawn a × Calls IsReady now calls

  module _ {S : Type 0} (call : S → Time → Drawn → Authority → Outcome (ServerConfig × S)) where
    -- The configurations that a series of calls returns.
    unfoldable pub serve_all : S → List Call → Outcome (List ServerConfig)
    serve_all s [] = done []
    serve_all s ((now, drawn, a) ∷ calls) =
        and_then (call s now drawn a)
          λ out. and_then (serve_all out.1 calls) λ cfgs. done (out.0 ∷ cfgs)

    pub serve_all-AllServe :
        (IsReady : Time → Drawn → Authority → Type 0) (IsGood : S → Time → Type 0)
        → ((s : S) (past now : Time) (drawn : Drawn) (a : Authority)
            → IsGood s past
            → past ≤ now
            → IsReady now drawn a
            → (cfg : ServerConfig) × (s' : S) × (call s now drawn a ≡ done (cfg, s'))
              × Serves k http2 0 a now cfg
              × IsGood s' now)
        → (s : S) (past : Time) (calls : List Call) → IsGood s past
        → Calls IsReady past calls
        → (cfgs : List ServerConfig) × (serve_all s calls ≡ done cfgs) × AllServe calls cfgs
    unfolding serve_all
    serve_all-AllServe IsReady IsGood answers s past [] good can = ([], refl, tt)
    serve_all-AllServe IsReady IsGood answers s past ((now, drawn, a) ∷ calls) good
          (later, ready, rest) =
        let (cfg, s', made, serves, good') = answers s past now drawn a good later ready in
        let (cfgs, served, serve) =
          serve_all-AllServe IsReady IsGood answers s' now calls good' rest in
        (cfg ∷ cfgs, rw (made, served) refl, (serves, serve))
