-- ===== src/Authority/Openssl/Ready.antt =====
-- When `gen_cert` of src/certificate_authority/openssl_authority.rs makes a certificate.
use hudsucker.Prelude.{
  Bool, false, ℕ, ◌-◌, ◌≤◌, ◌≡◌, ap, Bytes, codes, done, Result, ok, ◌>>=◌, arith,
}
use hudsucker.Authority.{Time, Serving}
use hudsucker.Authority.Openssl.Times.{in_range-NoOverflow}
use hudsucker.Authority.Openssl.Certifying.{IsInRange}
use hudsucker.Authority.Openssl.{
  Openssl, OpensslAuthority, not_before_unix, not_after_unix, named, begun, dated, extended, signed,
  checked, after_begun, since_epoch, after_named, gen_cert,
}

abbrev pub Succeeds : {A E : Type 0} → Result A E → Type 0
Succeeds {A} r = (a : A) × (r ≡ ok a)

-- Code after code succeeds if both do.
succeed :
    {A B E : Type 0} (r : Result A E) (f : A → Result B E)
    → Succeeds r
    → ((a : A) → Succeeds (f a))
    → Succeeds (r >>= f)
succeed r f (a, e) s = let (b, e') = s a in (b, rw e e')

module _ {k : Serving} (o : Openssl k) where
  open o use {X509Builder}

  -- OpenSSL reports no error: the host goes into a name and an extension, the times can be told, the
  -- random generator is seeded, and the keys and what is built are in order.
  pub record NoErrors (self : OpensslAuthority o) (secs : ℕ) (drawn : Result Bytes o.ErrorStack)
      (a : k.Authority) : Type 0 where
    pub new_name : Succeeds o.new_name
    pub names : (b : o.NameBuilder) → Succeeds (o.append_entry_by_text (codes "CN") (k.host a) b)
    pub new_x509 : Succeeds o.new_x509
    pub subject : (n : o.Name) (b : X509Builder) → Succeeds (o.set_subject_name n b)
    pub version : (b : X509Builder) → Succeeds (o.set_version 2 b)
    pub tells_before : Succeeds (o.from_unix (not_before_unix secs))
    pub not_before : (t : o.Asn1Time) (b : X509Builder) → Succeeds (o.set_not_before t b)
    pub tells_after : Succeeds (o.from_unix (not_after_unix secs))
    pub not_after : (t : o.Asn1Time) (b : X509Builder) → Succeeds (o.set_not_after t b)
    pub pubkey : (b : X509Builder) → Succeeds (o.set_pubkey self.pkey b)
    pub issuer_name :
        (b : X509Builder) → Succeeds (o.set_issuer_name (o.subject_name self.ca_cert) b)
    pub dns : (b : X509Builder) → Succeeds (o.dns_extension (k.host a) self.ca_cert b)
    pub extension : (e : o.Extension) (b : X509Builder) → Succeeds (o.append_extension e b)
    pub random : Succeeds drawn
    pub number : (bytes : Bytes) → Succeeds (o.from_slice bytes)
    pub integer : (n : o.BigNum) → Succeeds (o.from_bn n)
    pub serial : (n : o.Asn1Integer) (b : X509Builder) → Succeeds (o.set_serial_number n b)
    pub signs : (b : X509Builder) → Succeeds (o.sign self.pkey self.hash b)
    pub encodes : (x : o.X509) → Succeeds (o.to_der x)

  module _ (self : OpensslAuthority o) (secs : ℕ) (drawn : Result Bytes o.ErrorStack)
      (a : k.Authority) (fine : NoErrors self secs drawn a) where
    named-Succeeds : Succeeds (named o a)
    unfolding named
    named-Succeeds = succeed _ _ fine.new_name λ n. succeed _ _ (fine.names n) λ n'.
        succeed _ _ fine.new_x509 λ b. succeed _ _ (fine.subject (o.build_name n') b) fine.version

    dated-Succeeds : (b : X509Builder) → Succeeds (dated o secs b)
    unfolding dated
    dated-Succeeds b = succeed _ _ fine.tells_after λ t. fine.not_after t b

    begun-Succeeds : (b : X509Builder) → Succeeds (begun o secs b)
    unfolding begun
    begun-Succeeds b = succeed _ _ fine.tells_before λ t. fine.not_before t b

    extended-Succeeds : (b : X509Builder) → Succeeds (extended o self a b)
    unfolding extended
    extended-Succeeds b = succeed _ _ (fine.pubkey b) λ b1.
        succeed _ _ (fine.issuer_name b1) λ b2. succeed _ _ (fine.dns b2) λ e. fine.extension e b2

    signed-Succeeds : (b : X509Builder) → Succeeds (signed o self drawn b)
    unfolding signed
    signed-Succeeds b = succeed _ _ fine.random λ bytes. succeed _ _ (fine.number bytes) λ n.
        succeed _ _ (fine.integer n) λ n'.
          succeed _ _ (fine.serial n' b)
            λ b1. succeed _ _ (fine.signs b1) λ b2. fine.encodes (o.build b2)

  since_epoch_lem :
      (now : Time) → o.unix_epoch ≤ now → since_epoch o now ≡ done (now - o.unix_epoch)
  unfolding since_epoch
  since_epoch_lem now h = ground arith

  checked_lem : (overflows : Bool) → overflows ≡ false → checked o overflows ≡ done tt
  unfolding checked
  checked_lem overflows e = ground arith

  -- Then a certificate is made.
  pub gen_cert-ok :
      (self : OpensslAuthority o) (now : Time) (drawn : Result Bytes o.ErrorStack) (a : k.Authority)
      → o.unix_epoch ≤ now
      → IsInRange o now
      → NoErrors self (now - o.unix_epoch) drawn a
      → (cert : k.CertificateDer) × (gen_cert o self now drawn a ≡ done (ok cert))
  unfolding gen_cert after_named after_begun
  gen_cert-ok self now drawn a late early fine =
      let secs = now - o.unix_epoch in
      let (b, is_named) = named-Succeeds self secs drawn a fine in
      let (b0, is_begun) = begun-Succeeds self secs drawn a fine b in
      let (no_sub, no_add) = in_range-NoOverflow secs (omega (arith, late, early)) in
      let (cert, made) =
        succeed (dated o secs b0 >>= extended o self a) (signed o self drawn)
          (succeed (dated o secs b0) (extended o self a) (dated-Succeeds self secs drawn a fine b0)
            (extended-Succeeds self secs drawn a fine))
          (signed-Succeeds self secs drawn a fine) in
      (
        cert,
        rw
            (
              is_named,
              since_epoch_lem now late,
              checked_lem _ no_sub,
              is_begun,
              checked_lem _ no_add,
            )
            (ap done made),
      )
