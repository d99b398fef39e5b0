-- ===== src/Examples/Programs/Running.antt =====
-- How the programs examples/noop.rs, examples/log.rs and examples/openssl.rs end.
use hudsucker.Prelude.{
  ◌≡◌, refl, ap, ◌∙◌, sym, ◌⊎◌, inl, inr, Bool, List, Bytes, codes, Outcome, done, panic, err,
}
use hudsucker.Platform.{Platform}
use hudsucker.Rewind.{Buffers}
use hudsucker.Internal.Runtime.{Runtime}
use hudsucker.Authority.{Serving}
use hudsucker.Authority.Rcgen.{Rcgen, RcgenAuthority}
use hudsucker.Authority.Openssl.{Openssl, OpensslAuthority}
use hudsucker.Builder.{Parts, AddrOrListener, Proxy, addr}
use hudsucker.Start.{Listening, Pick, Action, start}
use hudsucker.Start.Laws.{before_shutdown, is_shut_down, AllHandled, fails, runs, start-Starts}
use hudsucker.Examples.Mains.{noop_main, log_main, openssl_main}
use hudsucker.Examples.Programs.{
  RcgenKeys, OpensslKeys, Ended, returned, error_logged, ended, program, noop_program, log_program,
  openssl_program,
}
use hudsucker.Examples.Programs.Authorities.{
  RcgenRefuses, RcgenMakes, rcgen_ca-cases, OpensslRefuses, OpensslMakes, openssl_ca-cases,
}

module _ {p : Platform} {buf : Buffers} {r : Runtime p buf} {k : Parts r} (s : Listening k)
    (picks : List (Pick r)) where
  -- The end of a program whose proxy listens at an address.
  pub data Ends (self : Proxy k) (a : p.SocketAddr) (end : Ended s self) : Type 0 where
    logs :
        (e : p.bodies.errors.IoError)
        → s.bind a ≡ err e
        → end ≡ error_logged (codes "io error")
        → Ends self a end
    serves :
        (actions : List (Action s self)) (stopped : Bool)
        → end ≡ returned actions stopped
        → AllHandled s self (before_shutdown r picks) actions
        → stopped ≡ is_shut_down r picks
        → Ends self a end

  -- How a program runs whose authority is `IsMade`, or is not made because the files are `Refused`.
  pub data Runs {A : Type 0} (Refused : Type 0) (IsMade : A → Type 0) (proxy_of : A → Proxy k)
      (a : p.SocketAddr) (out : Outcome ((ca : A) × Ended s (proxy_of ca))) : Type 0 where
    panics : Refused → out ≡ panic → Runs Refused IsMade proxy_of a out
    ends :
        (ca : A) (end : Ended s (proxy_of ca))
        → IsMade ca
        → out ≡ done (ca, end)
        → Ends (proxy_of ca) a end
        → Runs Refused IsMade proxy_of a out

  addr-injective : (a b : p.SocketAddr) → ◌≡◌ {A = AddrOrListener k} (addr a) (addr b) → a ≡ b
  addr-injective a b e = cc

  start-Ends :
      (self : Proxy k) (a : p.SocketAddr)
      → self.al ≡ addr a
      → Ends self a (ended s self (start s self picks))
  unfolding ended
  start-Ends self a at = elim (start-Starts s self picks) [
    | fails b e at' refused out ↦
        logs e (ap s.bind (addr-injective a b (sym at ∙ at')) ∙ refused) (rw (out, ended) refl)
    | runs actions stopped out handled stops ↦
        serves actions stopped (rw (out, ended) refl) handled stops
  ]

  program-Runs :
      {A : Type 0} (Refused : Type 0) (IsMade : A → Type 0) (proxy_of : A → Proxy k)
      (a : p.SocketAddr) (made : Outcome A)
      → ((ca : A) → (proxy_of ca).al ≡ addr a)
      → ((ca : A) × (made ≡ done ca) × IsMade ca) ⊎ (Refused × (made ≡ panic))
      → Runs Refused IsMade proxy_of a (program s made proxy_of picks)
  unfolding program
  program-Runs Refused IsMade proxy_of a made at (inl (ca, e, is_made)) =
      ends ca (ended s (proxy_of ca) (start s (proxy_of ca) picks)) is_made (rw e refl)
        (start-Ends (proxy_of ca) a (at ca))
  program-Runs Refused IsMade proxy_of a made at (inr (refused, e)) = panics refused (rw e refl)

module _ {p : Platform} {buf : Buffers} {r : Runtime p buf} {k : Parts r} (s : Listening k)
    (localhost_3000 : p.SocketAddr) (shutdown : k.Shutdown) {v : Serving} {g : Rcgen v}
    (keys : RcgenKeys g) (same_ca : RcgenAuthority g → r.Ca) {o : Openssl v}
    (openssl_keys : OpensslKeys o) (same_openssl_ca : OpensslAuthority o → r.Ca) (key cert : Bytes)
    (picks : List (Pick r)) where
  abbrev pub NoopRuns : Type 0
  NoopRuns =
      Runs s picks (RcgenRefuses keys key cert) (RcgenMakes keys key cert)
        (λ ca. noop_main k localhost_3000 (same_ca ca) shutdown) localhost_3000
        (noop_program s localhost_3000 shutdown keys same_ca key cert picks)

  abbrev pub LogRuns : Type 0
  LogRuns =
      Runs s picks (RcgenRefuses keys key cert) (RcgenMakes keys key cert)
        (λ ca. log_main k localhost_3000 (same_ca ca) shutdown) localhost_3000
        (log_program s localhost_3000 shutdown keys same_ca key cert picks)

  abbrev pub OpensslRuns : Type 0
  OpensslRuns =
      Runs s picks (OpensslRefuses openssl_keys key cert) (OpensslMakes openssl_keys key cert)
        (λ ca. openssl_main k localhost_3000 (same_openssl_ca ca) shutdown) localhost_3000
        (openssl_program s localhost_3000 shutdown openssl_keys same_openssl_ca key cert picks)

  -- Each of the three programs panics before it accepts anything if its key or its certificate
  -- cannot be read or, for rcgen, not signed, or, for OpenSSL, the key not be encoded. Else its
  -- proxy has the new authority for this key and certificate, with a cache of 1000 entries. If the
  -- address cannot be bound, it logs "io error" and ends; if it can, it serves every connection
  -- that is accepted before the shutdown, in order, and ends its loop exactly if the shutdown
  -- comes.
  pub programs-Run : NoopRuns × LogRuns × OpensslRuns
  unfolding noop_program log_program openssl_program
  programs-Run = (
    program-Runs s picks _ _ _ localhost_3000 _ (λ ca. refl) (rcgen_ca-cases keys key cert),
    program-Runs s picks _ _ _ localhost_3000 _ (λ ca. refl) (rcgen_ca-cases keys key cert),
    program-Runs s picks _ _ _ localhost_3000 _ (λ ca. refl)
        (openssl_ca-cases openssl_keys key cert),
  )
