-- ===== src/Tests/BstrSample.antt =====
-- An implementation of the interface to the `bstr` crate.
use hudsucker.Prelude.{
  ℕ, ◌≡◌, ◌≢◌, refl, sym, ◌∙◌, ap, Bool, ◌||◌, if◌then◌else◌, List, [], ◌∷◌, ◌++◌, reverse,
  reverse-append, reverse-reverse, Bytes, join, All, All-append, nat_eq, arith,
}
use mathlib.Core.List.{reverse-cons}
use hudsucker.Bstr.{Bstr, IsBlank, IsVisible}

-- Splitting at each `c`; what stands before the first is put behind `cur`.
abbrev pub cons_first : ℕ → List Bytes → List Bytes
cons_first b [] = (b ∷ []) ∷ []
cons_first b (p ∷ ps) = (b ∷ p) ∷ ps

abbrev pub split : ℕ → Bytes → List Bytes
split c [] = [] ∷ []
split c (b ∷ bs) = let rest = split c bs in if nat_eq b c then [] ∷ rest else cons_first b rest

split-word : (c : ℕ) (p : Bytes) → All (λ b. b ≢ c) p → split c p ≡ p ∷ []
split-word c [] h = refl
split-word c (b ∷ p) h = ground (arith, split-word c p)

split-append :
    (c : ℕ) (p rest : Bytes) → All (λ b. b ≢ c) p → split c (p ++ (c ∷ rest)) ≡ p ∷ split c rest
split-append c [] rest h = ground arith
split-append c (b ∷ p) rest h = ground (arith, split-append c p rest)

split-join :
    (c : ℕ) (part : Bytes) (parts : List Bytes)
    → All (All (λ b. b ≢ c)) (part ∷ parts)
    → split c (join (c ∷ []) (part ∷ parts)) ≡ part ∷ parts
split-join c part [] h = split-word c part h.0
split-join c part (q ∷ parts) h =
    split-append c part (join (c ∷ []) (q ∷ parts)) h.0
    ∙ ap (λ l. part ∷ l) (split-join c q parts h.1)

-- At a separator of one byte.
abbrev pub rsplit_str : Bytes → Bytes → List Bytes
rsplit_str b [] = b ∷ []
rsplit_str b (c ∷ _) = reverse (split c b)

abbrev pub is_blank : ℕ → Bool
is_blank b = nat_eq b 32 || nat_eq b 9

abbrev pub trim_start : Bytes → Bytes
trim_start [] = []
trim_start (b ∷ bs) = let rest = trim_start bs in if is_blank b then rest else b ∷ bs

abbrev pub trim : Bytes → Bytes
trim b = reverse (trim_start (reverse (trim_start b)))

trim_start-blanks :
    (before rest : Bytes) → All IsBlank before → trim_start (before ++ rest) ≡ trim_start rest
trim_start-blanks [] rest h = refl
trim_start-blanks (b ∷ before) rest h = ground (arith, trim_start-blanks before rest)

trim_start-word :
    (word rest : Bytes) → All IsVisible word → word ≢ [] → trim_start (word ++ rest) ≡ word ++ rest
trim_start-word [] rest h ne = absurd (ne refl)
trim_start-word (b ∷ word) rest h ne = ground arith

trim_start-All : (bs : Bytes) → All IsBlank bs → trim_start bs ≡ []
trim_start-All [] h = refl
trim_start-All (b ∷ bs) h = ground (arith, trim_start-All bs)

trim_start-visible : (word : Bytes) → All IsVisible word → word ≢ [] → trim_start word ≡ word
trim_start-visible [] h ne = absurd (ne refl)
trim_start-visible (b ∷ word) h ne = ground arith

All-reverse : (P : ℕ → Type 0) (bs : Bytes) → All P bs → All P (reverse bs)
All-reverse P [] h = tt
All-reverse P (b ∷ bs) h =
    rw (reverse-cons b bs) (All-append P (reverse bs) (b ∷ []) (All-reverse P bs h.1) (h.0, tt))

reverse-ne-nil : (b : ℕ) (bs : Bytes) → reverse (b ∷ bs) ≢ []
reverse-ne-nil b bs e = cons-ne-nil (sym (reverse-reverse (b ∷ bs)) ∙ ap reverse e)
  where
    cons-ne-nil : b ∷ bs ≢ []
    cons-ne-nil p = cc

pub trim_lem :
    (before word after : Bytes)
    → All IsBlank before
    → All IsVisible word
    → All IsBlank after
    → trim (before ++ (word ++ after)) ≡ word
trim_lem before [] after h w k =
    ap (λ b. reverse (trim_start (reverse b)))
      (trim_start-blanks before after h ∙ trim_start-All after k)
trim_lem before (b ∷ word) after h w k =
    ap (λ x. reverse (trim_start (reverse x)))
      (trim_start-blanks before ((b ∷ word) ++ after) h
        ∙ trim_start-word (b ∷ word) after w (λ e. cc))
    ∙ ap (λ x. reverse (trim_start x)) (reverse-append (b ∷ word) after)
    ∙ ap reverse (
        trim_start-blanks (reverse after) (reverse (b ∷ word)) (All-reverse IsBlank after k)
        ∙ trim_start-visible (reverse (b ∷ word)) (All-reverse IsVisible (b ∷ word) w)
            (reverse-ne-nil b word))
    ∙ reverse-reverse (b ∷ word)

pub rsplit_str-join :
    (c : ℕ) (part : Bytes) (parts : List Bytes)
    → All (All (λ b. b ≢ c)) (part ∷ parts)
    → rsplit_str (join (c ∷ []) (part ∷ parts)) (c ∷ []) ≡ reverse (part ∷ parts)
rsplit_str-join c part parts h = ap reverse (split-join c part parts h)

abbrev pub bstr : Bstr
bstr = record {
  join_bytes = join;
  rsplit_str = rsplit_str;
  trim = trim;
  join_bytes_lem = λ sep parts. refl;
  rsplit_str-join = rsplit_str-join;
  trim_lem = trim_lem;
}
