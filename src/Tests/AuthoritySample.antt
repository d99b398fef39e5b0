-- ===== src/Tests/AuthoritySample.antt =====
-- An implementation of the interface that the authorities of src/certificate_authority/ share.
use hudsucker.Prelude.{
  ℕ, ◌+◌, ◌-◌, ◌<◌, ◌≡◌, ◌≢◌, refl, sym, ap, inl, inr, true, Option, none, some, List, [], ◌∷◌,
  Bytes, codes, ◌==◌, ==_iff, ltb, if◌then◌else◌, Bool-cases, arith,
}
use hudsucker.Authority.{Time, Contents, Serving}

abbrev pub Config : Type 0
Config = List Contents × List Bytes

-- A cache of one entry, with the time to live.
pub record Cache : Type 0 where
  pub ttl : ℕ
  pub entry : Option (Bytes × Time × Config)

abbrev is_fresh : Time → Bytes → ℕ → Bytes × Time × Config → Option Config
is_fresh now a ttl (b, t, cfg) =
    if b == a then (if ltb now (t + ttl) then some cfg else none) else none

abbrev find : Time → Bytes → ℕ → Option (Bytes × Time × Config) → Option Config
find now a ttl none = none
find now a ttl (some e) = is_fresh now a ttl e

ltb-true : (a b : ℕ) → ltb a b ≡ true → a < b
ltb-true a b e = ground arith

is_fresh-Holds :
    (now : Time) (a : Bytes) (ttl : ℕ) (b : Bytes) (u : Time) (held cfg : Config)
    → is_fresh now a ttl (b, u, held) ≡ some cfg
    → (b ≡ a) × (held ≡ cfg) × (now < u + ttl)
is_fresh-Holds now a ttl b u held cfg e = elim (Bool-cases (b == a)) [
  | inl same ↦ elim (Bool-cases (ltb now (u + ttl))) [
    | inl young ↦
        (let e' : some held ≡ some cfg = rw (same, young) at e in
          ((==_iff b a).0 same, cc, ltb-true now (u + ttl) young))
    | inr late ↦ absurd (let e' : none ≡ some cfg = rw (same, late) at e in cc)
  ]
  | inr other ↦ absurd (let e' : none ≡ some cfg = rw other at e in cc)
]

pub find-Holds :
    (now : Time) (a : Bytes) (ttl : ℕ) (o : Option (Bytes × Time × Config)) (cfg : Config)
    → find now a ttl o ≡ some cfg
    → (t : Time) × (o ≡ some (a, t, cfg)) × (now < t + ttl)
find-Holds now a ttl none cfg e = absurd cc
find-Holds now a ttl (some (b, u, held)) cfg e =
    let (same, same_cfg, young) = is_fresh-Holds now a ttl b u held cfg e in
    (u, rw (same, same_cfg) refl, young)

pub some-injective : {A : Type 0} {a b : A} → some a ≡ some b → b ≡ a
some-injective e = cc

pub none-ne-some : {A : Type 0} {a : A} → none ≢ some a
none-ne-some e = cc

pub inserted :
    (a b : Bytes) (now t : Time) (fresh cfg : Config)
    → ◌≡◌ {A = Option (Bytes × Time × Config)} (some (a, now, fresh)) (some (b, t, cfg))
    → (b ≡ a) × (t ≡ now) × (cfg ≡ fresh)
inserted a b now t fresh cfg e = (cc, cc, cc)

abbrev pub serving : Serving
serving = record {
  Authority = Bytes;
  host = λ a. a;
  CertificateDer = Contents;
  says = λ cert. cert;
  PrivateKey = Unit {0};
  ServerConfig = Config;
  with_single_cert = λ certs key. some (certs, []);
  cert_chain = λ cfg. cfg.0;
  alpn_protocols = λ cfg. cfg.1;
  set_alpn_protocols = λ protocols cfg. (cfg.0, protocols);
  Cache = Cache;
  new_cache = λ capacity ttl. record { ttl = ttl; entry = none };
  get = λ now a c. (find now a c.ttl c.entry, c);
  insert = λ now a cfg c. record { ttl = c.ttl; entry = some (a, now, cfg) };
  Holds = λ c a t cfg. c.entry ≡ some (a, t, cfg);
  time_to_live = λ c. c.ttl;
  cert_chain-with_single_cert =
      λ certs key cfg e. ap (λ o. elim o [ some c ↦ c.0 | none ↦ [] ]) (sym e);
  cert_chain-set_alpn_protocols = λ protocols cfg. refl;
  alpn_protocols-set_alpn_protocols = λ protocols cfg. refl;
  Holds-new_cache = λ capacity ttl a t cfg e. none-ne-some e;
  Holds-get = λ now a b c t cfg h. h;
  Holds-insert = λ now a b c t fresh cfg h. inl (inserted a b now t fresh cfg h);
  get-Holds = λ now a c cfg e. find-Holds now a c.ttl c.entry cfg e;
  time_to_live-new_cache = λ capacity ttl. refl;
  time_to_live-get = λ now a c. refl;
  time_to_live-insert = λ now a cfg c. refl;
}

abbrev pub localhost : Bytes
localhost = codes "localhost"

-- The configuration that is made for an authority at a time.
abbrev pub config_for : Bytes → Time → Config
config_for a now = (
  record {
    not_before = now - 60;
    not_after = now - 60 + 31536000;
    common_name = a;
    dns_names = a ∷ [];
  }
      ∷ [],
  codes "h2" ∷ codes "http/1.1" ∷ [],
)

abbrev pub config : Time → Config
config now = config_for localhost now
