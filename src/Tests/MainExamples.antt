-- ===== src/Tests/MainExamples.antt =====
-- Runs of the programs examples/noop.rs, examples/log.rs and examples/openssl.rs.
use hudsucker.Prelude.{
  ◌≡◌, refl, none, some, true, [], Bytes, codes, is_empty, if◌then◌else◌, panic, ok, err,
}
use hudsucker.Examples.Programs.{RcgenKeys, OpensslKeys, rcgen_ca}
use hudsucker.Examples.Programs.Running.{NoopRuns, LogRuns, OpensslRuns, programs-Run}
use hudsucker.Tests.AuthorityExamples.{rcgen}
use hudsucker.Tests.OpensslExamples.{openssl, blank}
use hudsucker.Tests.StartExamples.{listening, picks}

-- An empty file holds neither a key nor a certificate.
abbrev rcgen_keys : RcgenKeys rcgen
rcgen_keys = record {
  CaParams = Bytes;
  key_pair_from_pem = λ b. if is_empty b then none else some tt;
  from_ca_cert_pem = λ b. if is_empty b then none else some b;
  self_signed = λ params key_pair. some tt;
}

abbrev openssl_keys : OpensslKeys openssl
openssl_keys = record {
  private_key_from_pem = λ b. if is_empty b then err tt else ok tt;
  x509_from_pem = λ b. if is_empty b then err tt else ok blank;
  sha256 = tt;
}

no_key : rcgen_ca rcgen_keys [] (codes "cert") ≡ panic
unfolding rcgen_ca
no_key = refl

-- The address 3000 can be bound.
programs-Run_example :
    NoopRuns listening 3000 true rcgen_keys
      (λ ca. tt)
      openssl_keys
      (λ ca. tt)
      (codes "key")
      (codes "cert")
      picks
    × LogRuns listening 3000 true rcgen_keys
        (λ ca. tt)
        openssl_keys
        (λ ca. tt)
        (codes "key")
        (codes "cert")
        picks
    × OpensslRuns listening 3000 true rcgen_keys
        (λ ca. tt)
        openssl_keys
        (λ ca. tt)
        (codes "key")
        (codes "cert")
        picks
programs-Run_example =
    programs-Run listening 3000 true rcgen_keys (λ ca. tt) openssl_keys (λ ca. tt) (codes "key")
      (codes "cert") picks
