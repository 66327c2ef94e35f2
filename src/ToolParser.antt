-- ===== src/ToolParser.antt =====
-- tical_code/core/tool_call_parser.py: _extract_json_object, the scan that cuts an object out of a
-- reply by its braces, A text is the list of its code points.
pub mod Objects
pub mod Candidates
mod Samples
use mathlib.Core.Option
use existential_identity_tes.Base.{
  ℕ, zero, suc, ◌+◌, ◌-◌, ◌==◌, if◌then◌else◌, Bool, true, false, not, List, [], ◌∷◌, Option, none,
  some, get_elem?, drop, take,
}

abbrev pub quote : ℕ
quote = 34

abbrev pub backslash : ℕ
backslash = 92

abbrev pub open_brace : ℕ
open_brace = 123

abbrev pub close_brace : ℕ
close_brace = 125

-- The variables of the loop.
pub record Scan : Type 0 where
  pub depth : ℕ
  pub in_string : Bool
  pub escape_next : Bool

unfoldable pub new_scan : Scan
new_scan = record { depth = 0; in_string = false; escape_next = false }

-- `depth -= 1`, and nothing more to scan at 0. The scan starts at an open brace, so that the depth
-- is at least 1 here.
unfoldable pub close_one : Scan → Option Scan
close_one s = if (s.depth - 1) == 0 then none else some (record s { depth = s.depth - 1 })

-- The body of the loop; nothing when the object is complete.
unfoldable pub scan_char : ℕ → Scan → Option Scan
unfolding close_one
scan_char char s =
    if s.escape_next
    then some (record s { escape_next = false })
    else if char == backslash
    then some (record s { escape_next = true })
    else if char == quote
    then some (record s { in_string = not s.in_string })
    else if s.in_string
    then some s
    else if char == open_brace
    then some (record s { depth = s.depth + 1 })
    else if char == close_brace
    then close_one s
    else some s

-- The loop from position i on: the position after the object.
unfoldable pub find_end : ℕ → Scan → List ℕ → Option ℕ
unfolding scan_char
find_end i s [] = none
find_end i s (char ∷ text) = elim (scan_char char s) [
  | none ↦ some (i + 1)
  | some s' ↦ find_end (i + 1) s' text
]

-- `text[start:end]`
unfoldable pub slice : List ℕ → ℕ → ℕ → List ℕ
slice text start end = take (end - start) (drop start text)

-- `start_pos < len(text) and text[start_pos] == '{'`
unfoldable pub starts_object : List ℕ → ℕ → Bool
starts_object text start_pos = elim (get_elem? text start_pos) [
  | none ↦ false
  | some char ↦ char == open_brace
]

unfoldable pub extract_json_object : List ℕ → ℕ → Option (List ℕ)
unfolding starts_object new_scan find_end slice
extract_json_object text start_pos =
    if starts_object text start_pos
    then Option.map (λ end_pos. slice text start_pos end_pos)
        (find_end start_pos new_scan (drop start_pos text))
    else none

-- `[i for i, c in enumerate(text) if c == '{']`, counted from i.
unfoldable pub brace_positions : ℕ → List ℕ → List ℕ
brace_positions i [] = []
brace_positions i (c ∷ text) =
    let rest = brace_positions (i + 1) text in if c == open_brace then i ∷ rest else rest

-- `start_pos > 0 and text[start_pos - 1] == '"'`
unfoldable pub after_quote : List ℕ → ℕ → Bool
after_quote text zero = false
after_quote text (suc i) = elim (get_elem? text i) [ none ↦ false | some c ↦ c == quote ]

-- A position after a quote is skipped, and one where no object starts or ends.
abbrev pub add_candidate : Bool → Option (List ℕ) → List (List ℕ) → List (List ℕ)
add_candidate true json_candidate rest = rest
add_candidate false none rest = rest
add_candidate false (some json_candidate) rest = json_candidate ∷ rest

unfoldable pub candidates_at : List ℕ → List ℕ → List (List ℕ)
candidates_at text [] = []
candidates_at text (start_pos ∷ positions) =
    add_candidate (after_quote text start_pos) (extract_json_object text start_pos)
      (candidates_at text positions)

-- The texts that the loop of _parse_json_candidates gives to json.loads.
unfoldable pub json_candidates : List ℕ → List (List ℕ)
unfolding brace_positions candidates_at
json_candidates text = candidates_at text (brace_positions 0 text)
