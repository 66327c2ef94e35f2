-- ===== src/ToolParser/Objects.antt =====
-- The printed objects of a text, and what the scan finds of them.
use mathlib.Core.Option
use mathlib.Core.List.{append_assoc}
use existential_identity_tes.Base.{
  ◌≡◌, refl, ap, ◌∙◌, ℕ, suc, ◌+◌, ◌==◌, if◌then◌else◌, Bool, true, false, not, ◌&&◌, List, [], ◌∷◌,
  ◌++◌, none, some, length, drop, take, arith, length-append, drop-append, take-append,
  get_elem?-append,
}
use existential_identity_tes.ToolParser.{
  quote, backslash, open_brace, close_brace, Scan, new_scan, close_one, scan_char, find_end, slice,
  starts_object, extract_json_object,
}

-- A character of a string that stands for itself.
abbrev pub is_string_char : ℕ → Bool
is_string_char c = not (c == backslash) && not (c == quote)

-- A character outside strings and braces.
abbrev pub is_plain : ℕ → Bool
is_plain c = is_string_char c && not (c == open_brace) && not (c == close_brace)

-- The inside of a string literal.
pub data Literal : Type 0 where
  end : Literal
  one : (c : ℕ) → is_string_char c ≡ true → Literal → Literal
  escaped : ℕ → Literal → Literal

-- What stands between the braces of an object.
pub data Body : Type 0 where
  done : Body
  plain : (c : ℕ) → is_plain c ≡ true → Body → Body
  string : Literal → Body → Body
  braces : Body → Body → Body

abbrev pub print_literal : Literal → List ℕ
print_literal end = quote ∷ []
print_literal (one c p l) = c ∷ print_literal l
print_literal (escaped c l) = backslash ∷ c ∷ print_literal l

abbrev pub print_body : Body → List ℕ
print_body done = []
print_body (plain c p b) = c ∷ print_body b
print_body (string l b) = quote ∷ print_literal l ++ print_body b
print_body (braces a b) = open_brace ∷ print_body a ++ close_brace ∷ print_body b

abbrev pub print_object : Body → List ℕ
print_object b = open_brace ∷ print_body b ++ close_brace ∷ []

-- The state outside strings, at a depth of at least one.
abbrev at : ℕ → Scan
at d = record { depth = suc d; in_string = false; escape_next = false }

abbrev inside : ℕ → Scan
inside d = record { depth = suc d; in_string = true; escape_next = false }

find_end-next :
    (i : ℕ) (s : Scan) {s' : Scan} (c : ℕ) (rest : List ℕ)
    → scan_char c s ≡ some s'
    → find_end i s (c ∷ rest) ≡ find_end (i + 1) s' rest
unfolding find_end
find_end-next i s c rest h =
    ap (λ o. elim o [ none ↦ some (i + 1) | some s' ↦ find_end (i + 1) s' rest ]) h

scan_char-string : (d c : ℕ) → is_string_char c ≡ true → scan_char c (inside d) ≡ some (inside d)
unfolding scan_char
scan_char-string d c h = ground arith

scan_char-plain : (d c : ℕ) → is_plain c ≡ true → scan_char c (at d) ≡ some (at d)
unfolding scan_char
scan_char-plain d c h = ground arith

move : {i j : ℕ} (s : Scan) (rest : List ℕ) → i ≡ j → find_end i s rest ≡ find_end j s rest
move s rest h = ap (λ k. find_end k s rest) h

scan_quote : (d : ℕ) → scan_char quote (at d) ≡ some (inside d)
unfolding scan_char
scan_quote d = refl

scan_open : (d : ℕ) → scan_char open_brace (at d) ≡ some (at (suc d))
unfolding scan_char
scan_open d =
    ap (λ k. some (record { depth = k; in_string = false; escape_next = false })) (omega arith)

scan_first : scan_char open_brace new_scan ≡ some (at 0)
unfolding scan_char new_scan
scan_first = refl

scan_close : (d : ℕ) → scan_char close_brace (at (suc d)) ≡ some (at d)
unfolding scan_char close_one
scan_close d = ground arith

find_end-last : (i : ℕ) (rest : List ℕ) → find_end i (at 0) (close_brace ∷ rest) ≡ some (i + 1)
unfolding find_end scan_char close_one
find_end-last i rest = refl

-- A string literal is passed over, whatever it holds.
find_end-literal :
    (d i : ℕ) (l : Literal) (rest : List ℕ)
    → find_end i (inside d) (print_literal l ++ rest)
      ≡ find_end (i + length (print_literal l)) (at d) rest
unfolding find_end scan_char
find_end-literal d i end rest = refl
find_end-literal d i (one c p l) rest =
    find_end-next i (inside d) c (print_literal l ++ rest) (scan_char-string d c p)
    ∙ find_end-literal d (i + 1) l rest
    ∙ move (at d) rest (omega arith)
find_end-literal d i (escaped c l) rest =
    find_end-literal d (i + 1 + 1) l rest ∙ move (at d) rest (omega arith)

-- The inside of an object is passed over, at any depth.
find_end-body :
    (d i : ℕ) (b : Body) (rest : List ℕ)
    → find_end i (at d) (print_body b ++ rest) ≡ find_end (i + length (print_body b)) (at d) rest
find_end-body d i done rest = move (at d) rest (omega arith)
find_end-body d i (plain c p b) rest =
    find_end-next i (at d) c (print_body b ++ rest) (scan_char-plain d c p)
    ∙ find_end-body d (i + 1) b rest
    ∙ move (at d) rest (omega arith)
find_end-body d i (string l b) rest =
    ap (find_end i (at d))
      (ap (λ t. quote ∷ t) (append_assoc (print_literal l) (print_body b) rest))
    ∙ find_end-next i (at d) quote (print_literal l ++ (print_body b ++ rest)) (scan_quote d)
    ∙ find_end-literal d (i + 1) l (print_body b ++ rest)
    ∙ find_end-body d (i + 1 + length (print_literal l)) b rest
    ∙ move (at d) rest (omega (arith, length-append (print_literal l) (print_body b)))
find_end-body d i (braces a b) rest =
    ap (find_end i (at d))
      (ap (λ t. open_brace ∷ t) (append_assoc (print_body a) (close_brace ∷ print_body b) rest))
    ∙ find_end-next i (at d) open_brace (print_body a ++ (close_brace ∷ (print_body b ++ rest)))
        (scan_open d)
    ∙ find_end-body (suc d) (i + 1) a (close_brace ∷ (print_body b ++ rest))
    ∙ find_end-next (i + 1 + length (print_body a)) (at (suc d)) close_brace (print_body b ++ rest)
        (scan_close d)
    ∙ find_end-body d (i + 1 + length (print_body a) + 1) b rest
    ∙ move (at d) rest (omega (arith, length-append (print_body a) (close_brace ∷ print_body b)))

find_end-object :
    (i : ℕ) (b : Body) (rest : List ℕ)
    → find_end i new_scan (print_object b ++ rest) ≡ some (i + length (print_object b))
unfolding new_scan
find_end-object i b rest =
    find_end-next i new_scan open_brace ((print_body b ++ close_brace ∷ []) ++ rest) scan_first
    ∙ ap (find_end (i + 1) (at 0)) (append_assoc (print_body b) (close_brace ∷ []) rest)
    ∙ find_end-body 0 (i + 1) b (close_brace ∷ rest)
    ∙ find_end-last (i + 1 + length (print_body b)) rest
    ∙ ap some (omega (arith, length-append (print_body b) (close_brace ∷ [])))

starts_object-print :
    (before : List ℕ) (b : Body) (rest : List ℕ)
    → starts_object (before ++ (print_object b ++ rest)) (length before) ≡ true
unfolding starts_object
starts_object-print before b rest =
    ap (λ o. elim o [ none ↦ false | some char ↦ char == open_brace ])
      (get_elem?-append before ((print_body b ++ close_brace ∷ []) ++ rest) open_brace)

slice-append :
    (xs ys zs : List ℕ) → slice (xs ++ (ys ++ zs)) (length xs) (length xs + length ys) ≡ ys
unfolding slice
slice-append xs ys zs =
    ap (λ n. take n (drop (length xs) (xs ++ (ys ++ zs)))) (omega arith)
    ∙ ap (take (length ys)) (drop-append xs (ys ++ zs))
    ∙ take-append ys zs

-- Wherever an object stands in a text, and whatever stands before and after it, the scan that
-- starts at its position cuts out exactly that object. An object is printed from braces, string
-- literals and other characters; inside a literal a brace or an escaped quote does not count.
pub extract_json_object-print :
    (before : List ℕ) (b : Body) (rest : List ℕ)
    → extract_json_object (before ++ (print_object b ++ rest)) (length before)
      ≡ some (print_object b)
unfolding extract_json_object
extract_json_object-print before b rest =
    ap
      (λ c.
        if c
        then Option.map (λ e. slice text start e) (find_end start new_scan (drop start text))
        else none)
      (starts_object-print before b rest)
    ∙ ap (λ t. Option.map (λ e. slice text start e) (find_end start new_scan t))
        (drop-append before (print_object b ++ rest))
    ∙ ap (Option.map (λ e. slice text start e)) (find_end-object start b rest)
    ∙ ap some (slice-append before (print_object b) rest)
  where
    text : List ℕ
    text = before ++ (print_object b ++ rest)

    start : ℕ
    start = length before
