-- ===== src/Authority/Openssl/Library.antt =====
-- What src/certificate_authority/openssl_authority.rs takes from the crate `openssl`.
use hudsucker.Prelude.{ℕ, ◌+◌, ◌≡◌, Bool, List, [], ◌∷◌, ◌++◌, flat_map, Bytes, codes, Result, ok}
use hudsucker.Prelude.Int.{ℤ, pos_part, neg_part, signed64}
use hudsucker.Authority.{Time, Serving}

-- What of a certificate that is being built the laws are about.
pub record Fields (Name Asn1Time Extension : Type 0) : Type 0 where
  pub subject : Name
  pub not_before : Asn1Time
  pub not_after : Asn1Time
  pub extensions : List Extension

-- What the module takes from `openssl`. An operation with `&mut self` returns the new value.
pub record Openssl (k : Serving) : Type 1 where
  -- whether the arithmetic of the build is checked for overflow
  pub overflow_checks : Bool
  -- `SystemTime::UNIX_EPOCH`
  pub unix_epoch : Time
  pub ErrorStack : Type 0
  pub PKey : Type 0
  pub X509 : Type 0
  pub MessageDigest : Type 0
  pub Name : Type 0
  pub NameBuilder : Type 0
  pub X509Builder : Type 0
  pub Asn1Time : Type 0
  pub Extension : Type 0
  pub BigNum : Type 0
  pub Asn1Integer : Type 0
  -- `private_key_to_pkcs8`, with the conversion of its bytes
  pub private_key_to_pkcs8 : PKey → Result k.PrivateKey ErrorStack
  pub subject_name : X509 → Name
  pub new_name : Result NameBuilder ErrorStack
  pub append_entry_by_text : Bytes → Bytes → NameBuilder → Result NameBuilder ErrorStack
  pub build_name : NameBuilder → Name
  pub new_x509 : Result X509Builder ErrorStack
  pub set_subject_name : Name → X509Builder → Result X509Builder ErrorStack
  pub set_version : ℕ → X509Builder → Result X509Builder ErrorStack
  -- of the bit pattern of an `i64`
  pub from_unix : ℕ → Result Asn1Time ErrorStack
  pub set_not_before : Asn1Time → X509Builder → Result X509Builder ErrorStack
  pub set_not_after : Asn1Time → X509Builder → Result X509Builder ErrorStack
  pub set_pubkey : PKey → X509Builder → Result X509Builder ErrorStack
  pub set_issuer_name : Name → X509Builder → Result X509Builder ErrorStack
  -- `SubjectAlternativeName::new().dns(..).build(x509v3_context(Some(ca_cert), None))`
  pub dns_extension : Bytes → X509 → X509Builder → Result Extension ErrorStack
  pub append_extension : Extension → X509Builder → Result X509Builder ErrorStack
  pub from_slice : Bytes → Result BigNum ErrorStack
  pub from_bn : BigNum → Result Asn1Integer ErrorStack
  pub set_serial_number : Asn1Integer → X509Builder → Result X509Builder ErrorStack
  pub sign : PKey → MessageDigest → X509Builder → Result X509Builder ErrorStack
  pub build : X509Builder → X509
  -- `to_der`, with the conversion of its bytes
  pub to_der : X509 → Result k.CertificateDer ErrorStack
  -- What the values stand for: the entries of a name, the Unix time of a time, the DNS names of an
  -- extension.
  pub entries : NameBuilder → List (Bytes × Bytes)
  pub name_entries : Name → List (Bytes × Bytes)
  pub unix : Asn1Time → ℤ
  pub dns : Extension → List Bytes
  pub fields : X509Builder → Fields Name Asn1Time Extension
  pub certificate : X509 → Fields Name Asn1Time Extension
  -- An operation that succeeds does what its name says, and no more.
  pub entries-new_name : (b : NameBuilder) → new_name ≡ ok b → entries b ≡ []
  pub entries-append_entry_by_text :
      (field text : Bytes) (b b' : NameBuilder)
      → append_entry_by_text field text b ≡ ok b'
      → entries b' ≡ entries b ++ ((field, text) ∷ [])
  pub name_entries-build_name : (b : NameBuilder) → name_entries (build_name b) ≡ entries b
  pub fields-new_x509 : (b : X509Builder) → new_x509 ≡ ok b → (fields b).extensions ≡ []
  pub fields-set_subject_name :
      (name : Name) (b b' : X509Builder)
      → set_subject_name name b ≡ ok b'
      → fields b' ≡ record (fields b) { subject = name }
  pub fields-set_version :
      (version : ℕ) (b b' : X509Builder) → set_version version b ≡ ok b' → fields b' ≡ fields b
  pub unix-from_unix : (w : ℕ) (t : Asn1Time) → from_unix w ≡ ok t → unix t ≡ signed64 w
  pub fields-set_not_before :
      (t : Asn1Time) (b b' : X509Builder)
      → set_not_before t b ≡ ok b'
      → fields b' ≡ record (fields b) { not_before = t }
  pub fields-set_not_after :
      (t : Asn1Time) (b b' : X509Builder)
      → set_not_after t b ≡ ok b'
      → fields b' ≡ record (fields b) { not_after = t }
  pub fields-set_pubkey :
      (key : PKey) (b b' : X509Builder) → set_pubkey key b ≡ ok b' → fields b' ≡ fields b
  pub fields-set_issuer_name :
      (name : Name) (b b' : X509Builder) → set_issuer_name name b ≡ ok b' → fields b' ≡ fields b
  pub dns-dns_extension :
      (host : Bytes) (ca : X509) (b : X509Builder) (e : Extension)
      → dns_extension host ca b ≡ ok e
      → dns e ≡ host ∷ []
  pub fields-append_extension :
      (e : Extension) (b b' : X509Builder)
      → append_extension e b ≡ ok b'
      → fields b' ≡ record (fields b) { extensions = (fields b).extensions ++ (e ∷ []) }
  pub fields-set_serial_number :
      (n : Asn1Integer) (b b' : X509Builder) → set_serial_number n b ≡ ok b' → fields b' ≡ fields b
  pub fields-sign :
      (key : PKey) (hash : MessageDigest) (b b' : X509Builder)
      → sign key hash b ≡ ok b'
      → fields b' ≡ fields b
  pub certificate-build : (b : X509Builder) → certificate (build b) ≡ fields b
  -- The encoded certificate says what the fields say.
  pub common_name-to_der :
      (x : X509) (cert : k.CertificateDer) (name : Bytes)
      → to_der x ≡ ok cert
      → name_entries (certificate x).subject ≡ (codes "CN", name) ∷ []
      → (k.says cert).common_name ≡ name
  pub dns_names-to_der :
      (x : X509) (cert : k.CertificateDer)
      → to_der x ≡ ok cert
      → (k.says cert).dns_names ≡ flat_map dns (certificate x).extensions
  pub not_before-to_der :
      (x : X509) (cert : k.CertificateDer)
      → to_der x ≡ ok cert
      → (k.says cert).not_before + neg_part (unix (certificate x).not_before)
        ≡ unix_epoch + pos_part (unix (certificate x).not_before)
  pub not_after-to_der :
      (x : X509) (cert : k.CertificateDer)
      → to_der x ≡ ok cert
      → (k.says cert).not_after + neg_part (unix (certificate x).not_after)
        ≡ unix_epoch + pos_part (unix (certificate x).not_after)
