-- ===== src/DoomLoop/Detectors.antt =====
-- The thresholds and the four detectors of tical_code/core/doom_loop.py. A history has its newest
-- record first.
use existential_identity_tes.Base.{
  ℕ, suc, ◌+◌, ◌-◌, ◌*◌, ◌/◌, min, max, ltb, leb, if◌then◌else◌, String, Bool, true, not, ◌&&◌,
  ◌||◌, List, [], ◌∷◌, Option, none, some, length, map, select, take,
}
use existential_identity_tes.Base.Text.{str_eq, elem}
use existential_identity_tes.Base.Sort
use existential_identity_tes.DoomLoop.{
  LoopLevel, warning, critical, none_needed, DetectorType, generic_repeat, poll_no_progress,
  ping_pong, cross_agent, ToolCallRecord, LoopDetectionResult, no_loop, DoomLoopConfig, Library,
}
use existential_identity_tes.DoomLoop.Similarity.{text_similarity, reaches}

-- The warning threshold and the critical one.
pub record Thresholds : Type 0 where
  pub warn : ℕ
  pub critical : ℕ

-- The first and the last element of a list that starts with `newest`: the last is the oldest.
unfoldable pub oldest : ℕ → List ℕ → ℕ
oldest newest [] = newest
oldest newest (t ∷ ts) = oldest t ts

-- `freq > n / d` for `count` calls in `duration` milliseconds; without a duration the code takes
-- the number of calls for their frequency.
unfoldable pub faster : ℕ → ℕ → ℕ → ℕ → Bool
faster n d count duration =
    if ltb 0 duration then ltb (n * duration) (1_000 * d * count) else ltb n (d * count)

unfoldable pub slower : ℕ → ℕ → ℕ → ℕ → Bool
slower n d count duration =
    if ltb 0 duration then ltb (1_000 * d * count) (n * duration) else ltb (d * count) n

unfoldable pub scaled : ℕ → ℕ → Thresholds → Thresholds
unfolding faster slower
scaled count duration base =
    if faster 1 1 count duration
    then record { warn = max 5 (base.warn / 2); critical = max 10 (base.critical / 2) }
    else if faster 1 2 count duration
    then record { warn = max 6 (base.warn * 7 / 10); critical = max 12 (base.critical * 7 / 10) }
    else if slower 1 10 count duration
    then record { warn = min (base.warn * 3 / 2) 50; critical = min (base.critical * 3 / 2) 100 }
    else base

abbrev pub base_thresholds : DoomLoopConfig → Thresholds
base_thresholds config = record {
  warn = config.warn_threshold_base;
  critical = config.critical_threshold_base;
}

unfoldable pub recent : ℕ → List ℕ → List ℕ
recent now = select (λ t. ltb now (t + 60_000))

unfoldable pub by_recent : Thresholds → List ℕ → Thresholds
unfolding scaled oldest
by_recent base [] = base
by_recent base (newest ∷ []) = base
by_recent base (newest ∷ t ∷ ts) = scaled (2 + length ts) (newest - oldest t ts) base

-- `_adaptive_thresholds`
unfoldable pub adaptive_thresholds : ℕ → DoomLoopConfig → List ℕ → Thresholds
unfolding by_recent recent
adaptive_thresholds now config timestamps =
    if not config.adaptive_enabled
    then base_thresholds config
    else if ltb (length timestamps) 2
    then base_thresholds config
    else by_recent (base_thresholds config) (recent now timestamps)

unfoldable pub report : DetectorType → LoopLevel → ℕ → LoopDetectionResult
report detector level count = record {
  stuck = true;
  level = level;
  detector = some detector;
  count = count;
  recovery = none_needed;
}

-- How each detector turns its count into a report.
unfoldable pub judge : DetectorType → Thresholds → ℕ → LoopDetectionResult
unfolding report
judge detector t count =
    if leb t.critical count
    then report detector critical count
    else if leb t.warn count
    then report detector warning count
    else no_loop

-- What a call is known by: its tool and a hash.
abbrev pub Key : Type 0
Key = String × String

unfoldable pub same_key : Key → Key → Bool
same_key (s, x) (t, y) = str_eq s t && str_eq x y

-- `record.fuzzy_hash or record.args_hash`
unfoldable pub repeat_key : ToolCallRecord → Key
repeat_key r = (r.tool_name, if str_eq r.fuzzy_hash "" then r.args_hash else r.fuzzy_hash)

-- `counts[key] = counts.get(key, 0) + 1`
unfoldable pub bump : Key → List (Key × ℕ) → List (Key × ℕ)
unfolding same_key
bump k [] = (k, 1) ∷ []
bump k ((j, n) ∷ counts) =
    let rest = bump k counts in if same_key j k then (j, n + 1) ∷ counts else (j, n) ∷ rest

-- The oldest record is counted first.
unfoldable pub tally : List ToolCallRecord → List (Key × ℕ)
unfolding bump repeat_key
tally [] = []
tally (r ∷ rs) = bump (repeat_key r) (tally rs)

unfoldable pub more_often : Key × ℕ → Key × ℕ → Bool
more_often (j, m) (k, n) = leb n m

unfoldable pub first_report : Thresholds → List (Key × ℕ) → LoopDetectionResult
unfolding report
first_report t [] = no_loop
first_report t ((k, n) ∷ counts) =
    let rest = first_report t counts in
    if leb t.critical n
    then report generic_repeat critical n
    else if leb t.warn n
    then report generic_repeat warning n
    else rest

-- `_detect_generic_repeat`
unfoldable pub detect_generic_repeat : List ToolCallRecord → Thresholds → LoopDetectionResult
detect_generic_repeat history t = first_report t (Sort.sort more_often (tally history))

module _ {Args : Type 0} (py : Library Args) where
  -- Whether a call brought no progress after the last one, which had the same arguments.
  unfoldable pub no_progress : DoomLoopConfig → ToolCallRecord → ToolCallRecord → Bool
  unfolding reaches
  no_progress config last r =
      str_eq r.result_hash last.result_hash
      || (config.semantic_similarity_enabled
          && reaches config.semantic_threshold (text_similarity py r.result_text last.result_text))

  -- The records that the loop of `_detect_poll_no_progress` counts after the first.
  unfoldable pub poll_count : DoomLoopConfig → ToolCallRecord → List ToolCallRecord → ℕ
  unfolding no_progress
  poll_count config last [] = 0
  poll_count config last (r ∷ rs) =
      let rest = poll_count config last rs in
      if str_eq r.result_hash ""
      then rest
      else if str_eq r.args_hash last.args_hash && no_progress config last r
      then suc rest
      else 0

  unfoldable pub polls : DoomLoopConfig → List ToolCallRecord → ℕ
  unfolding poll_count
  polls config [] = 0
  polls config (r ∷ rs) =
      let rest = polls config rs in
      if str_eq r.result_hash "" then rest else suc (poll_count config r rs)

  -- `_detect_poll_no_progress`
  unfoldable pub detect_poll_no_progress :
      DoomLoopConfig → List ToolCallRecord → Thresholds → LoopDetectionResult
  unfolding polls judge
  detect_poll_no_progress config history t = judge poll_no_progress t (polls config history)

-- The first element that is not the given one.
unfoldable pub find_other {ℓ} : {A : Type ℓ} → (A → A → Bool) → A → List A → Option A
find_other eq a [] = none
find_other eq a (x ∷ xs) = let rest = find_other eq a xs in if eq x a then rest else some x

-- How many elements from the front are `expected`, `other`, `expected` and so on.
unfoldable pub alternations {ℓ} : {A : Type ℓ} → (A → A → Bool) → A → A → List A → ℕ
alternations eq expected other [] = 0
alternations eq expected other (x ∷ xs) =
    let rest = alternations eq other expected xs in if eq x expected then suc rest else 0

unfoldable pub oscillation {ℓ} :
    {A : Type ℓ} → (A → A → Bool) → DetectorType → Thresholds → List A → LoopDetectionResult
oscillation eq detector t [] = no_loop
oscillation eq detector t (a ∷ rest) = elim (find_other eq a rest) [
  | none ↦ no_loop
  | some b ↦ judge detector t (alternations eq a b (a ∷ rest))
]

unfoldable pub signature : ToolCallRecord → Key
signature r = (r.tool_name, r.args_hash)

-- `_detect_ping_pong`
unfoldable pub detect_ping_pong : List ToolCallRecord → Thresholds → LoopDetectionResult
detect_ping_pong history t =
    if ltb (length history) 4
    then no_loop
    else oscillation same_key ping_pong t (map signature (take 20 history))

-- The agents of the newest 20 records that name one.
unfoldable pub tail_agents : List ToolCallRecord → List String
tail_agents records = map (λ r. r.agent_id) (take 20 records)

unfoldable pub different : List String → List String
different [] = []
different (s ∷ ss) = let rest = different ss in if elem s ss then rest else s ∷ rest

-- `_detect_cross_agent`
unfoldable pub detect_cross_agent : List ToolCallRecord → Thresholds → LoopDetectionResult
unfolding tail_agents different
detect_cross_agent history t =
    let records = select (λ r. not (str_eq r.agent_id "")) history in
    if ltb (length history) 4
    then no_loop
    else if ltb (length records) 4
    then no_loop
    else if ltb (length (different (tail_agents records))) 2
    then no_loop
    else oscillation str_eq cross_agent t (tail_agents records)
