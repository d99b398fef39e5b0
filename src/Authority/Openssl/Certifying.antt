-- ===== src/Authority/Openssl/Certifying.antt =====
-- What a certificate of src/certificate_authority/openssl_authority.rs says.
use hudsucker.Prelude.{
  flat_map, ℕ, ◌+◌, ◌^◌, ◌<◌, ◌≡◌, refl, sym, ap, ◌∙◌, Bytes, done, Result, ok, err, ◌>>=◌,
  ok_through, Result-cases, inl, inr, arith, done-injective, done-ne-panic, err-ne-ok,
}
use hudsucker.Prelude.Int.{sub_ℕ, pos_part, neg_part, add_overflows, sub_overflows}
use hudsucker.Authority.{Time, ttl_secs, not_before_offset, Serving}
use hudsucker.Authority.Certificate.{Certifies}
use hudsucker.Authority.Validity.{and_then-eq-done}
use hudsucker.Authority.Openssl.{
  Openssl, OpensslAuthority, unwrap, named, begun, dated, extended, signed, since_epoch, checked,
  after_begun, after_named, not_before_unix, gen_cert,
}
use hudsucker.Authority.Openssl.Times.{AreExact-iff}
use hudsucker.Authority.Openssl.Built.{
  named-IsNamed, begun-IsBegun, dated-IsDated, extended-IsExtended, signed_fields,
}

-- A moment that is told by an exact Unix time.
told_exactly :
    (moment epoch a b : ℕ)
    → moment + neg_part (sub_ℕ a b) ≡ epoch + pos_part (sub_ℕ a b)
    → moment + b ≡ epoch + a
told_exactly moment epoch a b e = ground arith

module _ {k : Serving} (o : Openssl k) where
  -- The times of a certificate that is made then can be told in 64 bits.
  abbrev pub IsInRange : Time → Type 0
  IsInRange now = now + ttl_secs < o.unix_epoch + 2 ^ 63 + not_before_offset

  since_epoch-eq-done :
      (now : Time) {secs : ℕ} → since_epoch o now ≡ done secs → o.unix_epoch + secs ≡ now
  unfolding since_epoch
  since_epoch-eq-done now e = ground arith

  pub unwrap-eq-done :
      {A : Type 0} (r : Result A o.ErrorStack) {a : A} → unwrap o r ≡ done a → r ≡ ok a
  unwrap-eq-done (ok a) e = ap ok (done-injective e)
  unwrap-eq-done (err x) e = absurd (done-ne-panic (sym e))

  after_begun-Certifies :
      (self : OpensslAuthority o) (now : Time) (drawn : Result Bytes o.ErrorStack) (a : k.Authority)
      (secs : ℕ) (b b0 : o.X509Builder) (cert : k.CertificateDer)
      → IsInRange now
      → o.unix_epoch + secs ≡ now
      → named o a ≡ ok b
      → begun o secs b ≡ ok b0
      → after_begun o self secs drawn a (ok b0) ≡ done (ok cert)
      → Certifies k a now cert
  unfolding after_begun flat_map
  after_begun-Certifies self now drawn a secs b b0 cert in_range since is_named is_begun e =
      let (_, _, e1) =
        and_then-eq-done (checked o (add_overflows (not_before_unix secs) ttl_secs)) _ e in
      let (b2, e2, e4) =
        ok_through (dated o secs b0 >>= extended o self a) (signed o self drawn) cert
          (done-injective e1) in
      let (b1, is_dated, is_extended) = ok_through (dated o secs b0) _ b2 e2 in
      let (x, same, encoded) = signed_fields o self drawn b2 cert e4 in
      let n = named-IsNamed o a b is_named in
      let d0 = begun-IsBegun o secs b b0 is_begun in
      let d = dated-IsDated o secs b0 b1 is_dated in
      let x' = extended-IsExtended o self a b1 b2 is_extended in
      let (from, until) =
        (AreExact-iff secs (omega (arith, in_range, since))).1 (omega (arith, in_range, since)) in
      record {
        common_name =
            o.common_name-to_der x cert (k.host a) encoded
              (rw (same, x'.subject, d.subject, d0.subject) n.subject);
        names =
            o.dns_names-to_der x cert encoded
            ∙ (rw (same, x'.extensions, d.extensions, d0.extensions, n.extensions, x'.names) refl);
        from =
            told_exactly _ o.unix_epoch secs not_before_offset (
              rw (same, x'.not_before, d.not_before, d0.not_before, from) at
                (o.not_before-to_der x cert encoded))
            ∙ since;
        until =
            told_exactly _ o.unix_epoch (secs + ttl_secs) not_before_offset
              (rw (same, x'.not_after, d.not_after, until) at (o.not_after-to_der x cert encoded))
            ∙ omega (arith, since);
      }

  after_named-Certifies :
      (self : OpensslAuthority o) (now : Time) (drawn : Result Bytes o.ErrorStack) (a : k.Authority)
      (b : o.X509Builder) (cert : k.CertificateDer)
      → IsInRange now
      → named o a ≡ ok b
      → after_named o self now drawn a (ok b) ≡ done (ok cert)
      → Certifies k a now cert
  unfolding after_named after_begun
  after_named-Certifies self now drawn a b cert in_range is_named e =
      let (secs, is_since, e1) = and_then-eq-done (since_epoch o now) _ e in
      let (_, _, e2) = and_then-eq-done (checked o (sub_overflows secs not_before_offset)) _ e1 in
      elim (Result-cases (begun o secs b)) [
        | inl (b0, is_begun) ↦
            after_begun-Certifies self now drawn a secs b b0 cert in_range
              (since_epoch-eq-done now is_since) is_named is_begun (rw is_begun at e2)
        | inr (x, failed) ↦ absurd (err-ne-ok (done-injective (rw failed at e2)))
      ]

  -- A certificate that is made is for the time and the authority.
  pub gen_cert-Certifies :
      (self : OpensslAuthority o) (now : Time) (drawn : Result Bytes o.ErrorStack) (a : k.Authority)
      (cert : k.CertificateDer)
      → IsInRange now
      → gen_cert o self now drawn a ≡ done (ok cert)
      → Certifies k a now cert
  unfolding gen_cert after_named
  gen_cert-Certifies self now drawn a cert in_range e = elim (Result-cases (named o a)) [
    | inl (b, is_named) ↦
        after_named-Certifies self now drawn a b cert in_range is_named (rw is_named at e)
    | inr (x, failed) ↦ absurd (err-ne-ok (done-injective (rw failed at e)))
  ]
