-- ===== src/Decoder/Encodings.antt =====
-- `extract_encodings` of src/decoder.rs: the codings of a message, last one first.
use hudsucker.Prelude.{
  ◌≡◌, ◌≢◌, refl, sym, ap, ◌∙◌, List, [], ◌∷◌, ◌++◌, map, reverse, map-reverse, flat_map-append,
  flat_map-map, flat_map-singleton, flat_map-nil, flat_map, reverse-append, Bytes, codes, join, All,
  All-append, arith,
}
use mathlib.Core.List.{reverse-cons}
use hudsucker.Http.{Http, content_encoding}
use hudsucker.Bstr.{Bstr, IsBlank, IsVisible}
use hudsucker.Decoder.{extract_encodings}

-- An element of a header's list: a word with blanks round it.
pub record Element : Type 0 where
  pub before : Bytes
  pub word : Bytes
  pub after : Bytes

abbrev pub text : Element → Bytes
text e = e.before ++ (e.word ++ e.after)

-- The word is of visible characters other than the comma.
pub record IsElement (e : Element) : Type 0 where
  pub blank_before : All IsBlank e.before
  pub visible : All IsVisible e.word
  pub no_comma : All (λ b. b ≢ 44) e.word
  pub blank_after : All IsBlank e.after

-- A header's value: one or more elements with commas between them.
abbrev pub HeaderList : Type 0
HeaderList = Element × List Element

abbrev pub elements : HeaderList → List Element
elements (e, es) = e ∷ es

abbrev pub value_text : HeaderList → Bytes
value_text l = join (codes ",") (map text (elements l))

-- The words of all values of a header, in order.
abbrev pub words : List HeaderList → List Bytes
words [] = []
words (l ∷ ls) = map (λ e. e.word) (elements l) ++ words ls

blank-no_comma : (bs : Bytes) → All IsBlank bs → All (λ b. b ≢ 44) bs
blank-no_comma [] h = tt
blank-no_comma (b ∷ bs) h = (omega arith, blank-no_comma bs h.1)

text-no_comma : (e : Element) → IsElement e → All (λ b. b ≢ 44) (text e)
text-no_comma e v =
    All-append _ e.before _ (blank-no_comma e.before v.blank_before)
      (All-append _ e.word e.after v.no_comma (blank-no_comma e.after v.blank_after))

texts-no_comma : (es : List Element) → All IsElement es → All (All (λ b. b ≢ 44)) (map text es)
texts-no_comma [] v = tt
texts-no_comma (e ∷ es) v = (text-no_comma e v.0, texts-no_comma es v.1)

module _ (s : Bstr) where
  trim-text :
      (es : List Element) → All IsElement es → map s.trim (map text es) ≡ map (λ e. e.word) es
  trim-text [] v = refl
  trim-text (e ∷ es) v =
      rw (s.trim_lem e.before e.word e.after v.0.blank_before v.0.visible v.0.blank_after)
        (rw (trim-text es v.1))

  -- One value, split and trimmed.
  split_value :
      (l : HeaderList)
      → All IsElement (elements l)
      → map s.trim (s.rsplit_str (value_text l) (codes ","))
        ≡ reverse (map (λ e. e.word) (elements l))
  split_value (e, es) v =
      rw (s.rsplit_str-join 44 (text e) (map text es) (texts-no_comma (e ∷ es) v))
        (map-reverse s.trim (map text (e ∷ es)) ∙ ap reverse (trim-text (e ∷ es) v))

  split_values :
      (ls : List HeaderList)
      → All (λ l. All IsElement (elements l)) ls
      → flat_map (λ b. map s.trim (s.rsplit_str b (codes ","))) (reverse (map value_text ls))
        ≡ reverse (words ls)
  split_values [] v = flat_map-nil _
  split_values (l ∷ ls) v =
      rw
        (
          reverse-cons (value_text l) (map value_text ls),
          flat_map-append,
          split_values ls v.1,
          flat_map-singleton,
          split_value l v.0,
        )
        (sym (reverse-append (map (λ e. e.word) (elements l)) (words ls)))

  -- If the values of the Content-Encoding headers are lists of words with blanks round them and
  -- commas between them, the encodings are exactly the words of all values, without the blanks, the
  -- last one of the last value first.
  pub extract_encodings_lem :
      (h : Http) (headers : h.HeaderMap) (ls : List HeaderList)
      → map h.as_bytes (h.get_all headers content_encoding) ≡ map value_text ls
      → All (λ l. All IsElement (elements l)) ls
      → extract_encodings h s headers ≡ reverse (words ls)
  unfolding extract_encodings
  extract_encodings_lem h headers ls e v =
      flat_map-map (λ b. map s.trim (s.rsplit_str b (codes ","))) h.as_bytes
        (reverse (h.get_all headers content_encoding))
      ∙ rw (map-reverse h.as_bytes (h.get_all headers content_encoding), e) (split_values ls v)
