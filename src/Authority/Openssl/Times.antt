-- ===== src/Authority/Openssl/Times.antt =====
-- The 64-bit times of src/certificate_authority/openssl_authority.rs.
use hudsucker.Prelude.{true, false, ◌⊎◌, inl, inr, ◌≤◌, ℕ, ◌+◌, ◌^◌, ◌<◌, ◌≡◌, ◌↔◌, arith}
use hudsucker.Prelude.Int.{sub_ℕ, signed64, sub_overflows, add_overflows}
use hudsucker.Authority.{ttl_secs, not_before_offset}
use hudsucker.Authority.Openssl.{not_before_unix, not_after_unix}

abbrev pub AreExact : ℕ → Type 0
AreExact secs =
    (signed64 (not_before_unix secs) ≡ sub_ℕ secs not_before_offset)
    × (signed64 (not_after_unix secs) ≡ sub_ℕ (secs + ttl_secs) not_before_offset)

exact : (secs : ℕ) → secs + ttl_secs < 2 ^ 63 + not_before_offset → AreExact secs
exact secs h = ground arith

exact_only :
    (secs : ℕ) → secs < 2 ^ 64 → AreExact secs → secs + ttl_secs < 2 ^ 63 + not_before_offset
exact_only secs h (e, e') = ground arith

pub in_range-NoOverflow :
    (secs : ℕ)
    → secs + ttl_secs < 2 ^ 63 + not_before_offset
    → (sub_overflows secs not_before_offset ≡ false)
      × (add_overflows (not_before_unix secs) ttl_secs ≡ false)
in_range-NoOverflow secs h = (ground arith, ground arith)

pub AreExact-iff :
    (secs : ℕ) → secs < 2 ^ 64 → AreExact secs ↔ (secs + ttl_secs < 2 ^ 63 + not_before_offset)
AreExact-iff secs h = (exact_only secs h, exact secs)

-- One of the two operations overflows.
abbrev pub Overflows : ℕ → Type 0
Overflows secs =
    (sub_overflows secs not_before_offset ≡ true)
    ⊎ (add_overflows (not_before_unix secs) ttl_secs ≡ true)

sub_overflows_iff :
    (secs : ℕ)
    → (sub_overflows secs not_before_offset ≡ true)
      ↔ ((2 ^ 63 ≤ secs) × (secs < 2 ^ 63 + not_before_offset))
sub_overflows_iff secs = (λ e. (ground arith, ground arith), λ e. ground (arith, e.0, e.1))

add_overflows_iff :
    (secs : ℕ)
    → secs < 2 ^ 64
    → (add_overflows (not_before_unix secs) ttl_secs ≡ true)
      ↔ ((2 ^ 63 + not_before_offset ≤ secs + ttl_secs) × (secs < 2 ^ 63 + not_before_offset))
add_overflows_iff secs h = (λ e. (ground arith, ground arith), λ e. ground (arith, e.0, e.1))

Overflows-iff :
    (secs : ℕ)
    → secs < 2 ^ 64
    → Overflows secs
      ↔ ((2 ^ 63 + not_before_offset ≤ secs + ttl_secs) × (secs < 2 ^ 63 + not_before_offset))
Overflows-iff secs h = (there, back)
  where
    there :
        Overflows secs
        → (2 ^ 63 + not_before_offset ≤ secs + ttl_secs) × (secs < 2 ^ 63 + not_before_offset)
    there (inl e) =
        (omega (arith, ((sub_overflows_iff secs).0 e).0), ((sub_overflows_iff secs).0 e).1)
    there (inr e) = (add_overflows_iff secs h).0 e

    back :
        (2 ^ 63 + not_before_offset ≤ secs + ttl_secs) × (secs < 2 ^ 63 + not_before_offset)
        → Overflows secs
    back e = inr ((add_overflows_iff secs h).1 e)

-- For a certificate that is made so many seconds after 1970, of which a clock counts below 2 ^ 64:
-- its two times are exactly a minute before that and 365 days after this if and only if the second
-- of them is below 2 ^ 63. One of the two 64-bit operations that make them overflows exactly for
-- those other clocks that are below 2 ^ 63 and a minute; for later ones neither does, and the times
-- are wrong.
pub times-Bounds :
    (secs : ℕ)
    → secs < 2 ^ 64
    → (AreExact secs ↔ (secs + ttl_secs < 2 ^ 63 + not_before_offset))
      × (Overflows secs
          ↔ ((2 ^ 63 + not_before_offset ≤ secs + ttl_secs) × (secs < 2 ^ 63 + not_before_offset)))
times-Bounds secs h = (AreExact-iff secs h, Overflows-iff secs h)
