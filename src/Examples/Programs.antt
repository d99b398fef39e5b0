-- ===== src/Examples/Programs.antt =====
-- The programs examples/noop.rs, examples/log.rs and examples/openssl.rs from their start: they
-- read a key and a certificate, make an authority of them, and start a proxy with it.
pub mod Authorities
pub mod Running
use hudsucker.Prelude.{Bool, Option, List, Bytes, Outcome, done, and_then, Result, ok, err}
use hudsucker.Error.{Error, display}
use hudsucker.Platform.{Platform}
use hudsucker.Rewind.{Buffers}
use hudsucker.Internal.Runtime.{Runtime}
use hudsucker.Authority.{Serving, expect}
use hudsucker.Authority.Rcgen.{Rcgen, RcgenAuthority}
use hudsucker.Authority.Openssl.{Openssl, OpensslAuthority, unwrap}
use hudsucker.Builder.{Parts, Proxy}
use hudsucker.Start.{Listening, Pick, Action, start}
use hudsucker.Examples.Mains.{noop_main, log_main, openssl_main}
use hudsucker.Authority.Rcgen
use hudsucker.Authority.Openssl

-- What the programs take from `rcgen` and `openssl` beside what the authorities take.
pub record RcgenKeys {k : Serving} (g : Rcgen k) : Type 1 where
  pub CaParams : Type 0
  pub key_pair_from_pem : Bytes → Option g.KeyPair
  pub from_ca_cert_pem : Bytes → Option CaParams
  pub self_signed : CaParams → g.KeyPair → Option g.Certificate

pub record OpensslKeys {k : Serving} (o : Openssl k) : Type 0 where
  pub private_key_from_pem : Bytes → Result o.PKey o.ErrorStack
  pub x509_from_pem : Bytes → Result o.X509 o.ErrorStack
  pub sha256 : o.MessageDigest

-- The authority of a program, from the bytes of its two files.
unfoldable pub rcgen_ca :
    {k : Serving} {g : Rcgen k} → RcgenKeys g → Bytes → Bytes → Outcome (RcgenAuthority g)
rcgen_ca {g = g} keys key cert = and_then (expect (keys.key_pair_from_pem key)) λ key_pair.
    and_then (expect (keys.from_ca_cert_pem cert)) λ params.
      and_then (expect (keys.self_signed params key_pair))
        λ ca_cert. done (Rcgen.new g key_pair ca_cert 1000)

pub openssl_ca :
    {k : Serving} {o : Openssl k} → OpensslKeys o → Bytes → Bytes → Outcome (OpensslAuthority o)
openssl_ca {o = o} keys key cert =
    and_then (unwrap o (keys.private_key_from_pem key)) λ private_key.
      and_then (unwrap o (keys.x509_from_pem cert))
        λ ca_cert. Openssl.new o private_key ca_cert keys.sha256 1000

module _ {p : Platform} {buf : Buffers} {r : Runtime p buf} {k : Parts r} (s : Listening k) where
  -- How a program ends: with what the loop of its proxy did and whether it was left, or with the
  -- line that it logs for an error.
  pub data Ended (self : Proxy k) : Type 0 where
    returned : List (Action s self) → Bool → Ended self
    error_logged : Bytes → Ended self

  ended :
      (self : Proxy k) → Result (List (Action s self) × Bool) (Error p.bodies.errors) → Ended self
  ended self (ok (actions, stopped)) = returned actions stopped
  ended self (err e) = error_logged (display e)

  -- `main`, from where it has the two files, for the authority that it makes and the proxy that it
  -- builds with it.
  program :
      {A : Type 0}
      → Outcome A
      → (proxy_of : A → Proxy k) → List (Pick r)
      → Outcome ((ca : A) × Ended (proxy_of ca))
  program made proxy_of picks =
      and_then made λ ca. done (ca, ended (proxy_of ca) (start s (proxy_of ca) picks))

-- The address 127.0.0.1:3000, the future of `shutdown_signal`, and an authority as that of the
-- proxy.
module _ {p : Platform} {buf : Buffers} {r : Runtime p buf} {k : Parts r} (s : Listening k)
    (localhost_3000 : p.SocketAddr) (shutdown : k.Shutdown) {v : Serving} where
  module _ {g : Rcgen v} (keys : RcgenKeys g) (same_ca : RcgenAuthority g → r.Ca)
      (key cert : Bytes) where
    pub noop_program :
        List (Pick r)
        → Outcome
            ((ca : RcgenAuthority g) × Ended s (noop_main k localhost_3000 (same_ca ca) shutdown))
    noop_program =
        program s (rcgen_ca keys key cert) (λ ca. noop_main k localhost_3000 (same_ca ca) shutdown)

    pub log_program :
        List (Pick r)
        → Outcome
            ((ca : RcgenAuthority g) × Ended s (log_main k localhost_3000 (same_ca ca) shutdown))
    log_program =
        program s (rcgen_ca keys key cert) (λ ca. log_main k localhost_3000 (same_ca ca) shutdown)

  pub openssl_program :
      {o : Openssl v} (keys : OpensslKeys o) (same_ca : OpensslAuthority o → r.Ca)
      (key cert : Bytes)
      → List (Pick r)
      → Outcome (
          (ca : OpensslAuthority o) × Ended s (openssl_main k localhost_3000 (same_ca ca) shutdown))
  openssl_program keys same_ca key cert =
      program s (openssl_ca keys key cert)
        (λ ca. openssl_main k localhost_3000 (same_ca ca) shutdown)
