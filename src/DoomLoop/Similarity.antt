-- ===== src/DoomLoop/Similarity.antt =====
-- `_text_similarity` of tical_code/core/doom_loop.py: the share of the words and of the pairs of
-- Chinese characters that two texts have in common.
use existential_identity_tes.Base.{
  ℕ, ◌*◌, ltb, leb, ◌==◌, if◌then◌else◌, Bool, true, false, ◌&&◌, ◌||◌, List, [], ◌∷◌, ◌++◌, map,
  length, select, not,
}
use existential_identity_tes.DoomLoop.{Library}

-- A quotient, as the code divides; the code's 0.0 and 1.0 are 0/1 and 1/1.
pub record Ratio : Type 0 where
  pub part : ℕ
  pub whole : ℕ

-- `similarity >= threshold`, with the threshold in hundredths.
unfoldable pub reaches : ℕ → Ratio → Bool
reaches percent r = leb (percent * r.whole) (100 * r.part)

unfoldable pub same_text : List ℕ → List ℕ → Bool
same_text [] [] = true
same_text [] (d ∷ ds) = false
same_text (c ∷ cs) [] = false
same_text (c ∷ cs) (d ∷ ds) = c == d && same_text cs ds

unfoldable pub has_token : List ℕ → List (List ℕ) → Bool
unfolding same_text
has_token t [] = false
has_token t (u ∷ us) = same_text t u || has_token t us

-- The elements of a set, each once.
unfoldable pub distinct : List (List ℕ) → List (List ℕ)
unfolding has_token
distinct [] = []
distinct (t ∷ ts) = let rest = distinct ts in if has_token t ts then rest else t ∷ rest

-- `text.split()`: `word` is the part of the current word that was read.
unfoldable pub close_word : List ℕ → List (List ℕ) → List (List ℕ)
close_word [] words = words
close_word (c ∷ cs) words = (c ∷ cs) ∷ words

unfoldable pub split : (ℕ → Bool) → List ℕ → List ℕ → List (List ℕ)
unfolding close_word
split is_space word [] = close_word word []
split is_space word (c ∷ cs) =
    let skip = split is_space [] cs in
    let go_on = split is_space (word ++ (c ∷ [])) cs in
    if is_space c then close_word word skip else go_on

-- `'\u4e00' <= ch <= '\u9fff'`
unfoldable pub is_cjk : ℕ → Bool
is_cjk c = leb 19_968 c && leb c 40_959

unfoldable pub bigrams : List ℕ → List (List ℕ)
bigrams [] = []
bigrams (c ∷ []) = []
bigrams (c ∷ d ∷ cs) = (b'c' ∷ b':' ∷ c ∷ d ∷ []) ∷ bigrams (d ∷ cs)

module _ {Args : Type 0} (py : Library Args) where
  -- `_tokenize`
  unfoldable pub tokenize : List ℕ → List (List ℕ)
  unfolding split is_cjk bigrams distinct
  tokenize text = distinct (
      map (λ w. b'w' ∷ b':' ∷ w)
        (select (λ w. ltb 1 (length w)) (split py.is_space [] (py.lower text)))
      ++ bigrams (select is_cjk text))

  -- The Jaccard quotient of two sets of tokens.
  unfoldable pub jaccard : List (List ℕ) → List (List ℕ) → Ratio
  unfolding has_token
  jaccard a b = record {
    part = length (select (λ t. has_token t b) a);
    whole = length (a ++ select (λ t. not (has_token t a)) b);
  }

  unfoldable pub compare_tokens : List ℕ → List ℕ → List (List ℕ) → List (List ℕ) → Ratio
  unfolding jaccard same_text
  compare_tokens text_a text_b [] b =
      if same_text text_a text_b
      then record { part = 1; whole = 1 }
      else record { part = 0; whole = 1 }
  compare_tokens text_a text_b a [] =
      if same_text text_a text_b
      then record { part = 1; whole = 1 }
      else record { part = 0; whole = 1 }
  compare_tokens text_a text_b a b = jaccard a b

  -- `_text_similarity`
  unfoldable pub text_similarity : List ℕ → List ℕ → Ratio
  unfolding tokenize compare_tokens
  text_similarity [] b = record { part = 0; whole = 1 }
  text_similarity a [] = record { part = 0; whole = 1 }
  text_similarity a b = compare_tokens a b (tokenize a) (tokenize b)
