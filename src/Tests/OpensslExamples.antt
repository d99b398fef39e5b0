-- ===== src/Tests/OpensslExamples.antt =====
-- An implementation of the interface for OpenSSL, tests of the model of
-- src/certificate_authority/openssl_authority.rs, and the theorems about it at concrete inputs.
use hudsucker.Prelude.{
  ℕ, ◌+◌, ◌-◌, ◌^◌, ◌<◌, ◌≤◌, ◌≡◌, ◌↔◌, refl, sym, ap, ◌∙◌, true, List, [], ◌∷◌, ◌++◌, flat_map,
  Bytes, ◌==◌, ltb, if◌then◌else◌, Outcome, done, panic, and_then, Result, ok, err, ok-injective,
  arith,
}
use hudsucker.Prelude.Int.{pos_part, neg_part, sub_ℕ, signed64}
use hudsucker.Authority.{Time, Contents, ttl_secs, configure, make_config, gen_server_config}
use hudsucker.Authority.Certificate.{Serves}
use hudsucker.Authority.Series.{Call, AllServe, serve_all}
use hudsucker.Authority.Concurrent.{
  System, Reach, here, next, move, tick, miss, make, put, returned,
}
use hudsucker.Authority.Concurrent.Safety.{start}
use hudsucker.Authority.Openssl.{
  after_named, named, since_epoch, begun, checked, after_begun, dated, extended, signed, Fields,
  Openssl, OpensslAuthority, not_before_unix, not_after_unix, new, gen_cert, openssl_server_config,
  issuer,
}
use hudsucker.Authority.Openssl.Times.{AreExact, Overflows, times-Bounds}
use hudsucker.Authority.Openssl.Ready.{Succeeds, NoErrors}
use hudsucker.Authority.Openssl.Issuing.{IsReady, openssl-AllServe, openssl-Reach-Serves, made}
use hudsucker.Tests.AuthoritySample.{Config, serving, localhost, config}

abbrev Entries : Type 0
Entries = List (Bytes × Bytes)

abbrev Built : Type 0
Built = Fields Entries Time Bytes

abbrev epoch : Time
epoch = 1000

-- The time of a Unix time, if it can be told.
abbrev told : ℕ → Result Time (Unit {0})
told w =
    if ltb w (2 ^ 63)
    then ok (epoch + w)
    else if ltb w (2 ^ 64 - epoch)
    then err tt
    else if ltb w (2 ^ 64)
    then ok (epoch - (2 ^ 64 - w))
    else err tt

pub told-signed64 : (w : ℕ) (t : Time) → told w ≡ ok t → sub_ℕ t epoch ≡ signed64 w
told-signed64 w t e = ground arith

pub tells : (t : Time) → t + neg_part (sub_ℕ t epoch) ≡ epoch + pos_part (sub_ℕ t epoch)
tells t = ground arith

abbrev common_name_of : Entries → Bytes
common_name_of [] = []
common_name_of ((field, text) ∷ rest) = text

abbrev encoded : Built → Contents
encoded b = record {
  not_before = b.not_before;
  not_after = b.not_after;
  common_name = common_name_of b.subject;
  dns_names = flat_map (λ e. e ∷ []) b.extensions;
}

-- What a new builder holds.
abbrev pub blank : Built
blank = record { subject = []; not_before = 0; not_after = 0; extensions = [] }

abbrev pub openssl : Openssl serving
openssl = record {
  overflow_checks = true;
  unix_epoch = epoch;
  ErrorStack = Unit {0};
  PKey = Unit {0};
  X509 = Built;
  MessageDigest = Unit {0};
  Name = Entries;
  NameBuilder = Entries;
  X509Builder = Built;
  Asn1Time = Time;
  Extension = Bytes;
  BigNum = Bytes;
  Asn1Integer = Bytes;
  private_key_to_pkcs8 = λ key. ok key;
  subject_name = λ x. x.subject;
  new_name = ok [];
  append_entry_by_text = λ field text n. ok (n ++ ((field, text) ∷ []));
  build_name = λ n. n;
  new_x509 = ok blank;
  set_subject_name = λ n b. ok (record b { subject = n });
  set_version = λ v b. ok b;
  from_unix = told;
  set_not_before = λ t b. ok (record b { not_before = t });
  set_not_after = λ t b. ok (record b { not_after = t });
  set_pubkey = λ key b. ok b;
  set_issuer_name = λ n b. ok b;
  dns_extension = λ host ca b. ok host;
  append_extension = λ e b. ok (record b { extensions = b.extensions ++ (e ∷ []) });
  from_slice = λ bytes. ok bytes;
  from_bn = λ n. ok n;
  set_serial_number = λ n b. ok b;
  sign = λ key hash b. ok b;
  build = λ b. b;
  to_der = λ x. ok (encoded x);
  entries = λ n. n;
  name_entries = λ n. n;
  unix = λ t. sub_ℕ t epoch;
  dns = λ e. e ∷ [];
  fields = λ b. b;
  certificate = λ x. x;
  entries-new_name = λ b e. sym (ok-injective e);
  entries-append_entry_by_text = λ field text b b' e. sym (ok-injective e);
  name_entries-build_name = λ b. refl;
  fields-new_x509 = λ b e. ap (λ x. x.extensions) (sym (ok-injective e));
  fields-set_subject_name = λ name b b' e. sym (ok-injective e);
  fields-set_version = λ version b b' e. sym (ok-injective e);
  unix-from_unix = told-signed64;
  fields-set_not_before = λ t b b' e. sym (ok-injective e);
  fields-set_not_after = λ t b b' e. sym (ok-injective e);
  fields-set_pubkey = λ key b b' e. sym (ok-injective e);
  fields-set_issuer_name = λ name b b' e. sym (ok-injective e);
  dns-dns_extension = λ host ca b e same. ap (λ x. x ∷ []) (sym (ok-injective same));
  fields-append_extension = λ e b b' same. sym (ok-injective same);
  fields-set_serial_number = λ n b b' e. sym (ok-injective e);
  fields-sign = λ key hash b b' e. sym (ok-injective e);
  certificate-build = λ b. refl;
  common_name-to_der =
      λ x cert name e same. ap (λ c. c.common_name) (sym (ok-injective e)) ∙ ap common_name_of same;
  dns_names-to_der = λ x cert e. ap (λ c. c.dns_names) (sym (ok-injective e));
  not_before-to_der = λ x cert e. rw (← ok-injective e) (tells x.not_before);
  not_after-to_der = λ x cert e. rw (← ok-injective e) (tells x.not_after);
}

abbrev Drawn : Type 0
Drawn = Result Bytes (Unit {0})

abbrev ca : OpensslAuthority openssl
ca = made openssl true tt tt blank tt 1000

-- The first call is half a minute after 1970, so its certificate is valid from before that; the
-- second finds its configuration, the third comes after it has expired.
abbrev calls : List (Call serving true Drawn)
calls =
    (1030, ok (1 ∷ []), localhost)
    ∷ (1100, ok (2 ∷ []), localhost)
    ∷ (20000000, ok (3 ∷ []), localhost)
    ∷ []

abbrev serves : OpensslAuthority openssl → List (Call serving true Drawn) → Outcome (List Config)
serves self calls = serve_all serving true Drawn (openssl_server_config openssl true) self calls

cached_and_expired : serves ca calls ≡ done (config 1030 ∷ config 1030 ∷ config 20000000 ∷ [])
unfolding serve_all openssl_server_config gen_server_config gen_cert after_named named since_epoch
    begun checked after_begun dated extended signed ◌==◌ flat_map
cached_and_expired = refl

-- A clock before 1970, and an error of the random generator.
before_1970 : serves ca ((999, ok (1 ∷ []), localhost) ∷ []) ≡ panic
unfolding serve_all openssl_server_config gen_server_config gen_cert after_named named since_epoch
    begun checked after_begun dated extended signed ◌==◌ flat_map
before_1970 = refl

not_seeded : serves ca ((1030, err tt, localhost) ∷ []) ≡ panic
unfolding serve_all openssl_server_config gen_server_config gen_cert after_named named since_epoch
    begun checked after_begun dated extended signed ◌==◌ flat_map
not_seeded = refl

no_errors :
    (secs : ℕ) (bytes : Bytes)
    → Succeeds (told (not_before_unix secs))
    → Succeeds (told (not_after_unix secs))
    → NoErrors openssl ca secs (ok bytes) localhost
no_errors secs bytes from until = record {
  new_name = (_, refl);
  names = λ b. (_, refl);
  new_x509 = (_, refl);
  subject = λ n b. (_, refl);
  version = λ b. (_, refl);
  tells_before = from;
  not_before = λ t b. (_, refl);
  tells_after = until;
  not_after = λ t b. (_, refl);
  pubkey = λ b. (_, refl);
  issuer_name = λ b. (_, refl);
  dns = λ b. (_, refl);
  extension = λ e b. (_, refl);
  random = (_, refl);
  number = λ n. (_, refl);
  integer = λ n. (_, refl);
  serial = λ n b. (_, refl);
  signs = λ b. (_, refl);
  encodes = λ x. (_, refl);
}

is_ready :
    (now : Time) (bytes : Bytes)
    → epoch ≤ now
    → now ≤ 900000000
    → Succeeds (told (not_before_unix (now - epoch)))
    → Succeeds (told (not_after_unix (now - epoch)))
    → IsReady openssl ca now (ok bytes) localhost
is_ready now bytes late early from until = record {
  late = late;
  early = omega (arith, early);
  no_errors = no_errors (now - epoch) bytes from until;
  accepts = λ cert. ((cert ∷ [], []), refl);
}

openssl-AllServe_example :
    (cfgs : List Config) × (and_then (new openssl tt blank tt 1000) (λ self. serves self calls)
      ≡ done cfgs)
    × AllServe serving true Drawn calls cfgs
openssl-AllServe_example = openssl-AllServe openssl true tt tt blank tt 1000 calls refl (
  omega arith,
  is_ready 1030 (1 ∷ []) (omega arith) (omega arith) (_, refl) (_, refl),
  (
    omega arith,
    is_ready 1100 (2 ∷ []) (omega arith) (omega arith) (_, refl) (_, refl),
    (omega arith, is_ready 20000000 (3 ∷ []) (omega arith) (omega arith) (_, refl) (_, refl), tt),
  ),
)

abbrev before_calls : System serving true (issuer openssl ca) 5
before_calls = start serving true (issuer openssl ca) 5 2000 1000 (λ n. localhost)

abbrev Overlap : System serving true (issuer openssl ca) 5 → Type 0
Overlap t = Reach serving true (issuer openssl ca) 5 before_calls t

-- The second call of two for one host finds nothing either, and inserts before the first.
overlap :
    (t : System serving true (issuer openssl ca) 5) × Overlap t
    × ((t.call 0).stage ≡ returned 2003 (config 2000))
    × (t.now ≡ 2003)
unfolding make_config configure gen_cert after_named named since_epoch begun checked after_begun
    dated extended signed ◌==◌ flat_map
overlap = (
  _,
  next
      (next
        (next
          (next
            (next (next (next here (move 0 (miss refl))) (move 1 (miss refl)))
              (move 0 (make (ok (1 ∷ [])) refl)))
            (move 1 (make (ok (2 ∷ [])) refl)))
          (move 1 (put (omega arith))))
        (tick 2003 (omega arith)))
      (move 0 (put (omega arith))),
  refl,
  refl,
)

openssl-Reach-Serves_example : Serves serving true 5 localhost 2003 (config 2000)
openssl-Reach-Serves_example =
    openssl-Reach-Serves openssl true tt tt blank tt 1000 5 2000 (λ n. localhost)
      (omega (arith, overlap.3)) overlap.1 0 2003 (config 2000) overlap.2

times-Bounds_example :
    (AreExact 30 ↔ (30 + ttl_secs < 2 ^ 63 + 60))
    × (Overflows 30 ↔ ((2 ^ 63 + 60 ≤ 30 + ttl_secs) × (30 < 2 ^ 63 + 60)))
times-Bounds_example = times-Bounds 30 (omega arith)
