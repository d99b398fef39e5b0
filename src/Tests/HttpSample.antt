-- ===== src/Tests/HttpSample.antt =====
-- An implementation of the interface to the `http` crate: header maps are association lists, a URI
-- is its parts.
use hudsucker.Prelude.{
  ℕ, ◌≡◌, refl, Bool, true, false, not, ◌&&◌, ◌||◌, if◌then◌else◌, Option, none, some, List, [],
  ◌∷◌, Bytes, ◌==◌, ==_iff, is_empty, first, All, leb, nat_eq, false≢true, arith, and-left,
  and-right,
}
use hudsucker.Http.{Http, UriParts, Scheme, HeaderName, IsValueByte}

abbrev pub valid_byte : ℕ → Bool
valid_byte b = nat_eq b 9 || (leb 32 b && leb b 255 && not (nat_eq b 127))

abbrev pub valid : Bytes → Bool
valid [] = true
valid (b ∷ bs) = valid_byte b && valid bs

abbrev pub Value : Type 0
Value = (b : Bytes) × (valid b ≡ true)

pub valid-All : (bs : Bytes) → valid bs ≡ true → All IsValueByte bs
valid-All [] e = tt
valid-All (b ∷ bs) e = (
  byte (and-left (valid_byte b) (valid bs) e),
  valid-All bs (and-right (valid_byte b) (valid bs) e),
)
  where
    byte : valid_byte b ≡ true → IsValueByte b
    byte e = grind arith

All-valid : (bs : Bytes) → All IsValueByte bs → valid bs ≡ true
All-valid [] h = refl
All-valid (b ∷ bs) h = rw (All-valid bs h.1) (byte h.0)
  where
    byte : IsValueByte b → (valid_byte b && true) ≡ true
    byte e = ground arith

abbrev from_bytes_if : (b : Bytes) (t : Bool) → valid b ≡ t → Option Value
from_bytes_if b true e = some (b, e)
from_bytes_if b false e = none

abbrev pub from_bytes : Bytes → Option Value
from_bytes b = from_bytes_if b (valid b) refl

from_bytes_if-valid :
    (b : Bytes) (t : Bool) (e : valid b ≡ t)
    → t ≡ true
    → (v : Value) × (from_bytes_if b t e ≡ some v) × (v.0 ≡ b)
from_bytes_if-valid b true e _ = ((b, e), refl, refl)
from_bytes_if-valid b false e f = absurd (false≢true f)

pub from_bytes-valid :
    (b : Bytes) → All IsValueByte b → (v : Value) × (from_bytes b ≡ some v) × (v.0 ≡ b)
from_bytes-valid b h = from_bytes_if-valid b (valid b) refl (All-valid b h)

abbrev pub Entries : Type 0
Entries = List (HeaderName × Value)

abbrev pub get_all : Entries → HeaderName → List Value
get_all [] k = []
get_all ((j, v) ∷ m) k = let rest = get_all m k in if j == k then v ∷ rest else rest

abbrev pub without : Entries → HeaderName → Entries
without [] k = []
without ((j, v) ∷ m) k = let rest = without m k in if j == k then rest else (j, v) ∷ rest

pub get_all-without :
    (m : Entries) (k j : HeaderName)
    → get_all (without m k) j ≡ (if k == j then [] else get_all m j)
get_all-without [] k j = ground arith
get_all-without ((i, v) ∷ m) k j =
    ground (arith, get_all-without m k j, ==_iff i k, ==_iff i j, ==_iff k j)

pub get_all-insert :
    (m : Entries) (k j : HeaderName) (v : Value)
    → get_all ((k, v) ∷ without m k) j ≡ (if k == j then v ∷ [] else get_all m j)
get_all-insert m k j v = ground (arith, get_all-without m k j)

abbrev check_parts :
    UriParts Bytes Bytes
    → Option Scheme
    → Option Bytes
    → Option Bytes
    → Option (UriParts Bytes Bytes)
check_parts u none (some _) (some _) = none
check_parts u none _ _ = some u
check_parts u (some _) none _ = none
check_parts u (some _) (some _) none = none
check_parts u (some _) (some _) (some _) = some u

abbrev pub from_parts : UriParts Bytes Bytes → Option (UriParts Bytes Bytes)
from_parts u = check_parts u u.scheme u.authority u.path_and_query

pub from_parts-no_authority :
    (s : Scheme) (p : Option Bytes)
    → from_parts (record { scheme = some s; authority = none; path_and_query = p }) ≡ none
from_parts-no_authority s p = refl

pub from_parts-no_path :
    (s : Scheme) (a : Option Bytes)
    → from_parts (record { scheme = some s; authority = a; path_and_query = none }) ≡ none
from_parts-no_path s none = refl
from_parts-no_path s (some a) = refl

abbrev pub http : Http
http = record {
  Method = Bool;
  is_connect = λ m. m;
  Authority = Bytes;
  host = λ a. a;
  PathAndQuery = Bytes;
  Uri = UriParts Bytes Bytes;
  into_parts = λ u. u;
  from_parts = from_parts;
  Extensions = Unit {0};
  no_extensions = tt;
  HeaderValue = Value;
  as_bytes = λ v. v.0;
  from_bytes = from_bytes;
  HeaderMap = Entries;
  no_headers = [];
  contains_key = λ m k. not (is_empty (get_all m k));
  get_all = get_all;
  remove = λ m k. (first (get_all m k), without m k);
  insert = λ m k v. (k, v) ∷ without m k;
  from_parts-absolute = λ s a p.
      (record { scheme = some s; authority = some a; path_and_query = some p }, refl, refl);
  from_parts-no_authority = from_parts-no_authority;
  from_parts-no_path = from_parts-no_path;
  as_bytes-All = λ v. valid-All v.0 v.1;
  from_bytes-valid = from_bytes-valid;
  get_all-no_headers = λ k. refl;
  contains_key_lem = λ m k. refl;
  remove-first = λ m k. refl;
  get_all-remove = get_all-without;
  get_all-insert = get_all-insert;
}
