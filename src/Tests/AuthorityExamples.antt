-- ===== src/Tests/AuthorityExamples.antt =====
-- An implementation of the interface for `rcgen`, tests of the model of
-- src/certificate_authority/rcgen_authority.rs, and the theorems about it at concrete inputs.
use hudsucker.Prelude.{ℕ, ◌≤◌, ◌≡◌, refl, true, some, List, [], ◌∷◌, map, Bytes, ◌==◌, done, arith}
use hudsucker.Authority.{Time, configure, make_config, gen_server_config}
use hudsucker.Authority.Certificate.{Serves}
use hudsucker.Authority.Series.{Call, AllServe, serve_all}
use hudsucker.Authority.Concurrent.{
  System, Reach, here, next, move, tick, miss, make, put, returned,
}
use hudsucker.Authority.Concurrent.Safety.{start}
use hudsucker.Authority.Rcgen.{Rcgen, RcgenAuthority, new, gen_cert, rcgen_server_config, issuer}
use hudsucker.Authority.Rcgen.Issuing.{IsReady, rcgen-AllServe, rcgen-Reach-Serves, made}
use hudsucker.Tests.AuthoritySample.{Config, some-injective, serving, localhost, config}

map_id : (bs : List Bytes) → map (λ b. b) bs ≡ bs
map_id [] = refl
map_id (b ∷ bs) = rw (map_id bs) refl

abbrev pub rcgen : Rcgen serving
rcgen = record {
  max_time = 1000000000;
  Ia5String = Bytes;
  ia5_string = λ b. some b;
  ia5_bytes = λ b. b;
  KeyPair = Unit {0};
  Certificate = Unit {0};
  private_key = λ k. k;
  signed_by = λ params key issuer issuer_key. some (record {
    not_before = params.not_before;
    not_after = params.not_after;
    common_name = params.common_name;
    dns_names = map (λ b. b) params.subject_alt_names;
  });
  ia5_string-some = λ b h. (b, refl);
  ia5_bytes-ia5_string = λ b s e. some-injective e;
  says-signed_by = λ params key issuer_key issuer cert e. some-injective e;
}

abbrev pub ca : RcgenAuthority rcgen
ca = new rcgen tt tt 1000

is_ready :
    (now : Time) (serial : ℕ) → 60 ≤ now → now ≤ 900000000 → IsReady rcgen ca now serial localhost
is_ready now serial late early = record {
  late = late;
  early = omega arith;
  ascii = omega arith;
  signs = λ params. (_, refl);
  accepts = λ cert. ((cert ∷ [], []), refl);
}

-- The second call finds the configuration of the first, the third comes after it has expired.
abbrev calls : List (Call serving true ℕ)
calls = (100, 1, localhost) ∷ (200, 2, localhost) ∷ (20000000, 3, localhost) ∷ []

cached_and_expired :
    serve_all serving true ℕ (rcgen_server_config rcgen true) ca calls
    ≡ done (config 100 ∷ config 100 ∷ config 20000000 ∷ [])
unfolding serve_all rcgen_server_config gen_server_config gen_cert ◌==◌
cached_and_expired = refl

rcgen-AllServe_example :
    (cfgs : List Config) × (serve_all serving true ℕ
        (rcgen_server_config rcgen true)
        (made rcgen true tt tt 1000)
        calls
      ≡ done cfgs)
    × AllServe serving true ℕ calls cfgs
rcgen-AllServe_example = rcgen-AllServe rcgen true tt tt 1000 calls (
  omega arith,
  is_ready 100 1 (omega arith) (omega arith),
  (
    omega arith,
    is_ready 200 2 (omega arith) (omega arith),
    (omega arith, is_ready 20000000 3 (omega arith) (omega arith), tt),
  ),
)

abbrev before_calls : System serving true (issuer rcgen ca) 5
before_calls = start serving true (issuer rcgen ca) 5 100 1000 (λ n. localhost)

-- Two calls for one host both find nothing, and both insert what they made, the first 3 seconds
-- after the second.
abbrev Overlap : System serving true (issuer rcgen ca) 5 → Type 0
Overlap t = Reach serving true (issuer rcgen ca) 5 before_calls t

pub overlap :
    (t : System serving true (issuer rcgen ca) 5) × Overlap t
    × ((t.call 0).stage ≡ returned 103 (config 100))
unfolding make_config configure gen_cert ◌==◌
overlap = (
  _,
  next
      (next
        (next
          (next
            (next (next (next here (move 0 (miss refl))) (move 1 (miss refl)))
              (move 0 (make 1 refl)))
            (move 1 (make 2 refl)))
          (move 1 (put (omega arith))))
        (tick 103 (omega arith)))
      (move 0 (put (omega arith))),
  refl,
)

rcgen-Reach-Serves_example : Serves serving true 5 localhost 103 (config 100)
rcgen-Reach-Serves_example =
    rcgen-Reach-Serves rcgen true tt tt 1000 5 100 (λ n. localhost) overlap.1 0 103 (config 100)
      overlap.2
