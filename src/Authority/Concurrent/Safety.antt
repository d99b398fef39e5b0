-- ===== src/Authority/Concurrent/Safety.antt =====
-- What holds of calls of `gen_server_config` of src/certificate_authority/ that overlap in any way.
use hudsucker.Prelude.{ℕ, ◌≤◌, ◌≡◌, refl, ap, ◌∙◌, Bool, true, nat_eq, Bool-cases, inl, inr, arith}
use hudsucker.Authority.{Time, cache_ttl, Serving, Issuer}
use hudsucker.Authority.Certificate.{IsMade, Serves, made-Serves, IsSound}
use hudsucker.Authority.Validity.{
  Certifying, make_config-IsMade, get-IsSound, insert-IsSound, get-Serves, new_cache-IsSound,
}
use hudsucker.Authority.Concurrent.{
  Stage, asking, missed, inserting, returned, panicked, Call, System, update, Move, hit, miss, make,
  fail, put, Step, move, tick, Reach, here, next,
}

module _ (k : Serving) (http2 : Bool) {Drawn : Type 0} (i : Issuer k Drawn) (delay : ℕ) where
  open k use {Authority, ServerConfig, Cache}

  -- What is known of a call for an authority.
  abbrev pub IsGood : Time → Authority → Stage k http2 i delay → Type 0
  IsGood now a asking = Unit
  IsGood now a missed = Unit
  IsGood now a (inserting made_at cfg) = IsMade k http2 a made_at cfg × (made_at ≤ now)
  IsGood now a (returned at cfg) = Serves k http2 delay a at cfg
  IsGood now a panicked = Unit

  -- The invariant.
  pub record IsSafe (s : System k http2 i delay) : Type 0 where
    pub sound : IsSound k http2 delay s.cache s.now
    pub good : (n : ℕ) → IsGood s.now (s.call n).authority (s.call n).stage

  later-IsGood :
      (now now' : Time) (a : Authority) (stage : Stage k http2 i delay)
      → now ≤ now'
      → IsGood now a stage
      → IsGood now' a stage
  later-IsGood now now' a asking later g = tt
  later-IsGood now now' a missed later g = tt
  later-IsGood now now' a (inserting made_at cfg) later (made, old) =
      (made, omega (arith, old, later))
  later-IsGood now now' a (returned at cfg) later g = g
  later-IsGood now now' a panicked later g = tt

  later-IsSound :
      (cache : Cache) (now now' : Time)
      → now ≤ now'
      → IsSound k http2 delay cache now
      → IsSound k http2 delay cache now'
  later-IsSound cache now now' later sound = record {
    entries = λ a u cfg holds.
        let (entry, old) = sound.entries a u cfg holds in (entry, omega (arith, old, later));
    ttl = sound.ttl;
  }

  -- One call's move keeps the cache sound and the call good.
  Move-IsGood :
      {now : Time} {a : Authority} {cache cache' : Cache} {stage stage' : Stage k http2 i delay}
      → Certifying k http2 i now
      → Move k http2 i delay now a cache stage cache' stage'
      → IsSound k http2 delay cache now
      → IsGood now a stage
      → IsSound k http2 delay cache' now × IsGood now a stage'
  Move-IsGood {now} {a} {cache} c (hit {cfg = cfg} e) sound g = (
    rw (ap (λ x. x.1) e) at (get-IsSound k http2 i delay now now a cache sound (omega arith)),
    get-Serves k http2 i delay now now a cache cfg sound (omega arith) (ap (λ x. x.0) e),
  )
  Move-IsGood {now} {a} {cache} c (miss e) sound g = (
    rw (ap (λ x. x.1) e) at (get-IsSound k http2 i delay now now a cache sound (omega arith)),
    tt,
  )
  Move-IsGood {now} {a} c (make {cfg = cfg} drawn e) sound g =
      (sound, (make_config-IsMade k http2 i now drawn a cfg c e, omega arith))
  Move-IsGood c (fail drawn e) sound g = (sound, tt)
  Move-IsGood {now} {a} {cache} c (put {made_at = made_at} {cfg = cfg} prompt) sound (made, old) = (
    insert-IsSound k http2 i delay now a cfg cache sound
        (record { made_at = made_at; made = made; in_order = old; in_time = prompt }),
    made-Serves k http2 made old (omega (arith, prompt)),
  )

  nat_eq-true : (n m : ℕ) → nat_eq n m ≡ true → n ≡ m
  nat_eq-true n m e = ground arith

  update-IsGood :
      (now : Time) (calls : ℕ → Call k http2 i delay) (n : ℕ) (stage : Stage k http2 i delay)
      → ((m : ℕ) → IsGood now (calls m).authority (calls m).stage)
      → IsGood now (calls n).authority stage
      → (m : ℕ)
      → IsGood now
          (update k http2 i delay calls n stage m).authority
          (update k http2 i delay calls n stage m).stage
  update-IsGood now calls n stage old new m = elim (Bool-cases (nat_eq n m)) [
    | inl same ↦ rw same new
    | inr other ↦ rw other (old m)
  ]

  pub Step-IsSafe :
      {s t : System k http2 i delay}
      → Certifying k http2 i s.now
      → Step k http2 i delay s t
      → IsSafe s
      → IsSafe t
  Step-IsSafe {s} c (move n {cache'} {stage'} m) safe =
      let (sound, good) = Move-IsGood c m safe.sound (safe.good n) in
      record { sound = sound; good = update-IsGood s.now s.call n stage' safe.good good }
  Step-IsSafe {s} c (tick now' later) safe = record {
    sound = later-IsSound s.cache s.now now' later safe.sound;
    good = λ n. later-IsGood s.now now' (s.call n).authority (s.call n).stage later (safe.good n);
  }

  Step-later : {s t : System k http2 i delay} → Step k http2 i delay s t → s.now ≤ t.now
  Step-later (move n m) = omega arith
  Step-later (tick now' later) = later

  pub Reach-IsSafe :
      {s t : System k http2 i delay} (last : Time)
      → ((now : Time) → now ≤ last → Certifying k http2 i now)
      → IsSafe s
      → Reach k http2 i delay s t
      → t.now ≤ last
      → IsSafe t
  Reach-IsSafe last c safe here in_time = safe
  Reach-IsSafe last c safe (next {t = t} r st) in_time =
      let before : t.now ≤ last = omega (arith, Step-later st, in_time) in
      Step-IsSafe (c t.now before) st (Reach-IsSafe last c safe r before)

  -- The system before any call has asked.
  abbrev pub start : Time → ℕ → (ℕ → Authority) → System k http2 i delay
  start now cache_size authorities = record {
    now = now;
    cache = k.new_cache cache_size cache_ttl;
    call = λ n. record { authority = authorities n; stage = asking };
  }

  pub start-IsSafe :
      (now : Time) (cache_size : ℕ) (authorities : ℕ → Authority)
      → IsSafe (start now cache_size authorities)
  start-IsSafe now cache_size authorities = record {
    sound = new_cache-IsSound k http2 i delay cache_size now;
    good = λ n. tt;
  }

  authority-Step :
      {s t : System k http2 i delay}
      → Step k http2 i delay s t
      → (n : ℕ) → (t.call n).authority ≡ (s.call n).authority
  authority-Step {s} (move m {cache'} {stage'} mv) n = elim (Bool-cases (nat_eq m n)) [
    | inl same ↦ rw same (ap (λ x. (s.call x).authority) (nat_eq-true m n same))
    | inr other ↦ rw other refl
  ]
  authority-Step (tick now' later) n = refl

  -- A call is for one authority throughout.
  pub authority-Reach :
      {s t : System k http2 i delay}
      → Reach k http2 i delay s t
      → (n : ℕ) → (t.call n).authority ≡ (s.call n).authority
  authority-Reach here n = refl
  authority-Reach (next r st) n = authority-Step st n ∙ authority-Reach r n

  -- If an authority's certificates are for the time and the host, then whatever way calls of a new
  -- one overlap, what a call returned serves what it asked for.
  pub Reach-Serves :
      (now : Time) (cache_size : ℕ) (authorities : ℕ → Authority) {t : System k http2 i delay}
      → ((now' : Time) → now' ≤ t.now → Certifying k http2 i now')
      → Reach k http2 i delay (start now cache_size authorities) t
      → (n : ℕ) (at : Time) (cfg : ServerConfig) → (t.call n).stage ≡ returned at cfg
      → Serves k http2 delay (authorities n) at cfg
  Reach-Serves now cache_size authorities {t} certifying reach n at cfg e =
      let safe =
        Reach-IsSafe t.now certifying (start-IsSafe now cache_size authorities) reach
          (omega arith) in
      rw (authority-Reach reach n, e) at (safe.good n)
