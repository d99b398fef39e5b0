-- ===== src/Authority/Concurrent.antt =====
-- Calls of `gen_server_config` of src/certificate_authority/ that overlap: a call waits at `get`
-- and at `insert` of the cache, and between these others may run.
pub mod Safety
use hudsucker.Prelude.{
  ℕ, ◌+◌, ◌≤◌, ◌≡◌, Bool, true, false, if◌then◌else◌, Option, none, some, nat_eq, Outcome, done,
  panic,
}
use hudsucker.Authority.{Time, Serving, Issuer, make_config}

-- What a call made it inserts within `delay` seconds: no more may pass between the end of its
-- computation and the next step of its task.
module _ (k : Serving) (http2 : Bool) {Drawn : Type 0} (i : Issuer k Drawn) (delay : ℕ) where
  open k use {Authority, ServerConfig, Cache}

  -- Where a call stands.
  pub data Stage : Type 0 where
    -- before `get`
    asking : Stage
    -- `get` returned nothing
    missed : Stage
    -- a configuration was made, at this time, and is about to be inserted
    inserting : Time → ServerConfig → Stage
    -- the call returned, at this time
    returned : Time → ServerConfig → Stage
    panicked : Stage

  -- A call: the authority that it is for, and where it stands.
  pub record Call : Type 0 where
    pub authority : Authority
    pub stage : Stage

  -- The clock, the cache that the calls share, and the calls, by a number.
  pub record System : Type 0 where
    pub now : Time
    pub cache : Cache
    pub call : ℕ → Call

  abbrev pub update : (ℕ → Call) → ℕ → Stage → ℕ → Call
  update calls n stage m =
      if nat_eq n m then record { authority = (calls n).authority; stage = stage } else calls m

  -- What one call does in one go, at a time: what becomes of the cache, and of its stage.
  pub data Move (now : Time) (a : Authority) (cache : Cache) : Stage → Cache → Stage → Type 0 where
    hit :
        {cfg : ServerConfig} {cache' : Cache}
        → k.get now a cache ≡ (some cfg, cache')
        → Move now a cache asking cache' (returned now cfg)
    miss :
        {cache' : Cache}
        → k.get now a cache ≡ (none, cache')
        → Move now a cache asking cache' missed
    make :
        {cfg : ServerConfig} (drawn : Drawn)
        → make_config k http2 i now drawn a ≡ done cfg
        → Move now a cache missed cache (inserting now cfg)
    fail :
        (drawn : Drawn)
        → make_config k http2 i now drawn a ≡ panic
        → Move now a cache missed cache panicked
    put :
        {made_at : Time} {cfg : ServerConfig}
        → now ≤ made_at + delay
        → Move now a cache (inserting made_at cfg) (k.insert now a cfg cache) (returned now cfg)

  -- One call moves, or time passes.
  pub data Step (s : System) : System → Type 0 where
    move :
        (n : ℕ) {cache' : Cache} {stage' : Stage}
        → Move s.now (s.call n).authority s.cache (s.call n).stage cache' stage'
        → Step s (record s { cache = cache'; call = update s.call n stage' })
    tick : (now' : Time) → s.now ≤ now' → Step s (record s { now = now' })

  pub data Reach (s : System) : System → Type 0 where
    here : Reach s s
    next : {t u : System} → Reach s t → Step t u → Reach s u
