-- ===== src/Bstr.antt =====
-- The operations of the `bstr` crate that the proxy uses, as an interface with their documented
-- behaviour.
use hudsucker.Prelude.{ℕ, ◌≡◌, ◌≢◌, ◌≤◌, ◌<◌, ◌⊎◌, List, [], ◌∷◌, ◌++◌, reverse, Bytes, join, All}

-- Space and tab.
abbrev pub IsBlank : ℕ → Type 0
IsBlank b = (b ≡ 32) ⊎ (b ≡ 9)

-- A visible ASCII character.
abbrev pub IsVisible : ℕ → Type 0
IsVisible b = (33 ≤ b) × (b < 127)

pub record Bstr : Type 1 where
  -- `bstr::join(separator, parts)`
  pub join_bytes : Bytes → List Bytes → Bytes
  -- `haystack.rsplit_str(splitter)`, collected
  pub rsplit_str : Bytes → Bytes → List Bytes
  pub trim : Bytes → Bytes
  pub join_bytes_lem : (sep : Bytes) (parts : List Bytes) → join_bytes sep parts ≡ join sep parts
  -- Splitting at a byte that stands in no part gives the parts back, last one first.
  pub rsplit_str-join :
      (c : ℕ) (part : Bytes) (parts : List Bytes)
      → All (All (λ b. b ≢ c)) (part ∷ parts)
      → rsplit_str (join (c ∷ []) (part ∷ parts)) (c ∷ []) ≡ reverse (part ∷ parts)
  -- Trimming drops the blanks on both sides of a word.
  pub trim_lem :
      (before word after : Bytes)
      → All IsBlank before
      → All IsVisible word
      → All IsBlank after
      → trim (before ++ (word ++ after)) ≡ word
