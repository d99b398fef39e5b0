-- ===== src/Error.antt =====
-- src/error.rs: the errors of the library.
use hudsucker.Prelude.{Bytes, codes}

-- The errors of other crates that it wraps.
pub record Errors : Type 1 where
  pub RcgenError : Type 0
  pub HyperError : Type 0
  pub IoError : Type 0

-- `hudsucker::Error`.
pub data Error (e : Errors) : Type 0 where
  tls : e.RcgenError → Error e
  network : e.HyperError → Error e
  io : e.IoError → Error e
  decode : Error e
  unknown : Error e

-- Its text.
abbrev pub display : {e : Errors} → Error e → Bytes
display (tls e) = codes "invalid CA"
display (network e) = codes "network error"
display (io e) = codes "io error"
display decode = codes "unable to decode body"
display unknown = codes "unknown error"
