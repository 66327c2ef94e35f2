-- ===== src/DoomLoop.antt =====
-- tical_code/core/doom_loop.py: the detector of agents that repeat themselves. This file has its
-- data and the operations that record calls. Both windows are kept with the newest entry first,
-- the order in which the code searches them. Of a report, the texts for people are left out
-- (`message`, `details`), and of the state `_detector_state`, to which no code adds an entry.
pub mod Similarity
pub mod Detectors
pub mod Detect
pub mod Window
pub mod Runs
pub mod Repeats
pub mod Recovery
pub mod Limits
pub mod Polls
mod Samples
use existential_identity_tes.Base.{
  ℕ, ◌+◌, if◌then◌else◌, String, Bool, true, false, not, ◌&&◌, List, [], ◌∷◌, Option, none, some,
  take,
}
use existential_identity_tes.Base.Text.{str_eq}

pub data LoopLevel : Type 0 where
  normal warning critical : LoopLevel

pub data RecoveryAction : Type 0 where
  none_needed retry_different_args switch_tool rollback_steps downgrade_model force_summarize :
      RecoveryAction

pub data DetectorType : Type 0 where
  generic_repeat poll_no_progress ping_pong cross_agent : DetectorType

pub record ToolCallRecord : Type 0 where
  pub tool_name : String
  pub args_hash : String
  pub fuzzy_hash : String
  pub result_hash : String
  pub result_text : List ℕ
  pub timestamp : ℕ
  pub agent_id : String

pub record LoopDetectionResult : Type 0 where
  pub stuck : Bool
  pub level : LoopLevel
  pub detector : Option DetectorType
  pub count : ℕ
  pub recovery : RecoveryAction

-- The result with the defaults of its fields.
abbrev pub no_loop : LoopDetectionResult
no_loop = record {
  stuck = false;
  level = normal;
  detector = none;
  count = 0;
  recovery = none_needed;
}

-- `semantic_threshold` is in hundredths.
pub record DoomLoopConfig : Type 0 where
  pub enabled : Bool
  pub history_size : ℕ
  pub warn_threshold_base : ℕ
  pub critical_threshold_base : ℕ
  pub adaptive_enabled : Bool
  pub cross_agent_enabled : Bool
  pub semantic_similarity_enabled : Bool
  pub semantic_threshold : ℕ
  pub recovery_enabled : Bool

abbrev pub default_config : DoomLoopConfig
default_config = record {
  enabled = true;
  history_size = 30;
  warn_threshold_base = 2;
  critical_threshold_base = 3;
  adaptive_enabled = true;
  cross_agent_enabled = true;
  semantic_similarity_enabled = true;
  semantic_threshold = 85;
  recovery_enabled = true;
}

pub record Detector : Type 0 where
  pub config : DoomLoopConfig
  pub history : List ToolCallRecord
  pub call_timestamps : List ℕ
  pub last_detect_hash : String
  pub cached_result : Option LoopDetectionResult

unfoldable pub new : DoomLoopConfig → Detector
new config = record {
  config = config;
  history = [];
  call_timestamps = [];
  last_detect_hash = "";
  cached_result = none;
}

-- The five substitutions of `_fuzzy_args_hash`, by what they look for.
pub data Pattern : Type 0 where
  timeout_prefix timeout_value pyeof_document eof_document spaces : Pattern

-- What the detector takes from Python's library, for arguments of a type: `json.dumps`, which may
-- raise, `str`, SHA-256 in hexadecimal, `re.sub` with each pattern and its replacement, and the
-- text methods `strip`, `lower` and `isspace`. `calls` is `json.dumps` of a list of four texts each.
pub record Library (Args : Type 0) : Type 0 where
  pub dumps : Args → Option (List ℕ)
  pub str : Args → List ℕ
  pub dumps_text : List ℕ → List ℕ
  pub dumps_calls : List (String × String × String × String) → List ℕ
  pub sha256 : List ℕ → String
  pub command : Args → Option (List ℕ)
  pub sub : Pattern → List ℕ → List ℕ
  pub strip : List ℕ → List ℕ
  pub lower : List ℕ → List ℕ
  pub is_space : ℕ → Bool

-- `deque.append` on a deque of a greatest length.
unfoldable pub push {ℓ} : {A : Type ℓ} → ℕ → A → List A → List A
push size x xs = take size (x ∷ xs)

module _ {Args : Type 0} (py : Library Args) where
  unfoldable pub deterministic_hash : Args → String
  deterministic_hash args = elim (py.dumps args) [
    | none ↦ py.sha256 (py.str args)
    | some text ↦ py.sha256 text
  ]

  unfoldable pub normalized : List ℕ → List ℕ
  normalized command = py.strip (
      py.sub spaces (
        py.sub eof_document
          (py.sub pyeof_document (py.sub timeout_value (py.sub timeout_prefix command)))))

  -- `_fuzzy_args_hash`
  unfoldable pub fuzzy_args_hash : String → Args → String
  unfolding deterministic_hash normalized
  fuzzy_args_hash tool_name args =
      if not (str_eq tool_name "bash") then deterministic_hash args else elim (py.command args) [
        | none ↦ deterministic_hash args
        | some [] ↦ deterministic_hash args
        | some (c ∷ cs) ↦ py.sha256 (normalized (c ∷ cs))
      ]

  -- The record of a call that has no result yet.
  unfoldable pub new_call : ℕ → String → Args → String → ToolCallRecord
  unfolding fuzzy_args_hash
  new_call now tool_name args agent_id = record {
    tool_name = tool_name;
    args_hash = deterministic_hash args;
    fuzzy_hash = fuzzy_args_hash tool_name args;
    result_hash = "";
    result_text = [];
    timestamp = now;
    agent_id = agent_id;
  }

  unfoldable pub record_tool_call : ℕ → String → Args → String → Detector → Detector
  unfolding new_call push
  record_tool_call now tool_name args agent_id d = if not d.config.enabled then d else record d {
    history = push d.config.history_size (new_call now tool_name args agent_id) d.history;
    call_timestamps = push 100 now d.call_timestamps;
    last_detect_hash = "";
    cached_result = none;
  }

  -- The search condition of `record_tool_outcome`.
  unfoldable pub is_open_call : String → String → String → ToolCallRecord → Bool
  is_open_call tool_name args_hash agent_id r =
      str_eq r.tool_name tool_name
      && str_eq r.args_hash args_hash
      && str_eq r.result_hash ""
      && str_eq r.agent_id agent_id

  unfoldable pub with_result : List ℕ → ToolCallRecord → ToolCallRecord
  with_result result_text r = record r {
    result_hash = py.sha256 (py.dumps_text result_text);
    result_text = result_text;
  }

-- The first record that satisfies a test is replaced; without one there is no result.
unfoldable pub replace_first {ℓ} : {A : Type ℓ} → (A → Bool) → (A → A) → List A → Option (List A)
replace_first p f [] = none
replace_first p f (x ∷ xs) =
    let rest = replace_first p f xs in
    if p x then some (f x ∷ xs) else elim rest [ none ↦ none | some ys ↦ some (x ∷ ys) ]

module _ {Args : Type 0} (py : Library Args) where
  unfoldable pub record_tool_outcome : ℕ → String → Args → List ℕ → String → Detector → Detector
  unfolding deterministic_hash is_open_call with_result replace_first push
  record_tool_outcome now tool_name args result_text agent_id d =
      let found =
        replace_first (is_open_call py tool_name (deterministic_hash py args) agent_id)
          (with_result py result_text) d.history in
      if not d.config.enabled then d else record d {
        history = elim found [
          | some history ↦ history
          | none ↦
              push d.config.history_size
                (record {
                  tool_name = tool_name;
                  args_hash = deterministic_hash py args;
                  fuzzy_hash = "";
                  result_hash = py.sha256 (py.dumps_text result_text);
                  result_text = result_text;
                  timestamp = now;
                  agent_id = agent_id;
                })
                d.history
        ];
        last_detect_hash = "";
        cached_result = none;
      }

unfoldable pub reset : Detector → Detector
reset d = record d {
  history = [];
  call_timestamps = [];
  last_detect_hash = "";
  cached_result = none;
}
