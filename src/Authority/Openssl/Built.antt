-- ===== src/Authority/Openssl/Built.antt =====
-- What the parts of `gen_cert` of src/certificate_authority/openssl_authority.rs leave in the
-- certificate that is being built.
use hudsucker.Prelude.{ℕ, ◌≡◌, refl, ◌∙◌, [], ◌∷◌, ◌++◌, Bytes, codes, Result, ok, ok_through}
use hudsucker.Prelude.Int.{signed64}
use hudsucker.Authority.{Serving}
use hudsucker.Authority.Openssl.{
  Openssl, OpensslAuthority, not_before_unix, not_after_unix, named, begun, dated, extended, signed,
}

module _ {k : Serving} (o : Openssl k) where
  open o use {X509Builder}

  pub record IsNamed (a : k.Authority) (b : X509Builder) : Type 0 where
    pub subject : o.name_entries (o.fields b).subject ≡ (codes "CN", k.host a) ∷ []
    pub extensions : (o.fields b).extensions ≡ []

  pub named-IsNamed : (a : k.Authority) (b : X509Builder) → named o a ≡ ok b → IsNamed a b
  unfolding named
  named-IsNamed a b e =
      let (n, is_new, e1) = ok_through o.new_name _ _ e in
      let (n', appended, e2) =
        ok_through (o.append_entry_by_text (codes "CN") (k.host a) n) _ _ e1 in
      let (b0, is_builder, e3) = ok_through o.new_x509 _ _ e2 in
      let (b1, has_subject, e4) = ok_through (o.set_subject_name (o.build_name n') b0) _ _ e3 in
      let versioned = o.fields-set_version 2 b1 b e4 in
      let subject = o.fields-set_subject_name (o.build_name n') b0 b1 has_subject in
      record {
        subject =
            rw
              (
                versioned,
                subject,
                o.name_entries-build_name n',
                o.entries-append_entry_by_text (codes "CN") (k.host a) n n' appended,
                o.entries-new_name n is_new,
              )
              refl;
        extensions = rw (versioned, subject) (o.fields-new_x509 b0 is_builder);
      }

  pub record IsBegun (secs : ℕ) (b b' : X509Builder) : Type 0 where
    pub subject : (o.fields b').subject ≡ (o.fields b).subject
    pub extensions : (o.fields b').extensions ≡ (o.fields b).extensions
    pub not_before : o.unix (o.fields b').not_before ≡ signed64 (not_before_unix secs)

  pub begun-IsBegun : (secs : ℕ) (b b' : X509Builder) → begun o secs b ≡ ok b' → IsBegun secs b b'
  unfolding begun
  begun-IsBegun secs b b' e =
      let (t, is_before, e1) = ok_through (o.from_unix (not_before_unix secs)) _ _ e in
      let first = o.fields-set_not_before t b b' e1 in
      record {
        subject = rw first refl;
        extensions = rw first refl;
        not_before = rw first (o.unix-from_unix _ t is_before);
      }

  pub record IsDated (secs : ℕ) (b b' : X509Builder) : Type 0 where
    pub subject : (o.fields b').subject ≡ (o.fields b).subject
    pub extensions : (o.fields b').extensions ≡ (o.fields b).extensions
    pub not_before : (o.fields b').not_before ≡ (o.fields b).not_before
    pub not_after : o.unix (o.fields b').not_after ≡ signed64 (not_after_unix secs)

  pub dated-IsDated : (secs : ℕ) (b b' : X509Builder) → dated o secs b ≡ ok b' → IsDated secs b b'
  unfolding dated
  dated-IsDated secs b b' e =
      let (t, is_after, e1) = ok_through (o.from_unix (not_after_unix secs)) _ _ e in
      let second = o.fields-set_not_after t b b' e1 in
      record {
        subject = rw second refl;
        extensions = rw second refl;
        not_before = rw second refl;
        not_after = rw second (o.unix-from_unix _ t is_after);
      }

  pub record IsExtended (a : k.Authority) (b b' : X509Builder) : Type 0 where
    pub subject : (o.fields b').subject ≡ (o.fields b).subject
    pub not_before : (o.fields b').not_before ≡ (o.fields b).not_before
    pub not_after : (o.fields b').not_after ≡ (o.fields b).not_after
    pub extension : o.Extension
    pub extensions : (o.fields b').extensions ≡ (o.fields b).extensions ++ (extension ∷ [])
    pub names : o.dns extension ≡ k.host a ∷ []

  pub extended-IsExtended :
      (self : OpensslAuthority o) (a : k.Authority) (b b' : X509Builder)
      → extended o self a b ≡ ok b'
      → IsExtended a b b'
  unfolding extended
  extended-IsExtended self a b b' e =
      let (b1, has_key, e1) = ok_through (o.set_pubkey self.pkey b) _ _ e in
      let (b2, has_issuer, e2) =
        ok_through (o.set_issuer_name (o.subject_name self.ca_cert) b1) _ _ e1 in
      let (x, is_extension, e3) = ok_through (o.dns_extension (k.host a) self.ca_cert b2) _ _ e2 in
      let same = o.fields-set_issuer_name _ b1 b2 has_issuer ∙ o.fields-set_pubkey _ b b1 has_key in
      let added = o.fields-append_extension x b2 b' e3 in
      record {
        subject = rw (added, same) refl;
        not_before = rw (added, same) refl;
        not_after = rw (added, same) refl;
        extension = x;
        extensions = rw (added, same) refl;
        names = o.dns-dns_extension (k.host a) self.ca_cert b2 x is_extension;
      }

  -- The certificate that is signed has the fields that were set.
  pub signed_fields :
      (self : OpensslAuthority o) (drawn : Result Bytes o.ErrorStack) (b : X509Builder)
      (cert : k.CertificateDer)
      → signed o self drawn b ≡ ok cert
      → (x : o.X509) × (o.certificate x ≡ o.fields b) × (o.to_der x ≡ ok cert)
  unfolding signed
  signed_fields self drawn b cert e =
      let (bytes, is_drawn, e1) = ok_through drawn _ _ e in
      let (n, is_big, e2) = ok_through (o.from_slice bytes) _ _ e1 in
      let (n', is_integer, e3) = ok_through (o.from_bn n) _ _ e2 in
      let (b1, numbered, e4) = ok_through (o.set_serial_number n' b) _ _ e3 in
      let (b2, is_signed, e5) = ok_through (o.sign self.pkey self.hash b1) _ _ e4 in
      (
        o.build b2,
        o.certificate-build b2
            ∙ o.fields-sign _ _ b1 b2 is_signed
            ∙ o.fields-set_serial_number _ b b1 numbered,
        e5,
      )
