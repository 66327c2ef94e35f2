-- ===== src/DoomLoop/Samples.antt =====
-- A detector under runs of calls, and the laws at them.
use existential_identity_tes.Base.{
  select, ℕ, ◌≤◌, ◌≡◌, ◌⊎◌, ◌↔◌, sym, refl, String, true, false, List, [], ◌∷◌, none, some, arith,
  length, if◌then◌else◌, ◌==◌, map, ap,
}
use existential_identity_tes.Base.Sort
use existential_identity_tes.DoomLoop.{
  poll_no_progress, ToolCallRecord, default_config, Detector, reset, Library,
}
use existential_identity_tes.DoomLoop.Detectors.{
  detect_poll_no_progress, Thresholds, Key, signature, same_key, first_report, tally, oscillation,
  find_other, judge, alternations, detect_generic_repeat, detect_ping_pong, adaptive_thresholds,
}
use existential_identity_tes.DoomLoop.Detect.{
  detect, fingerprint, recompute, default_strategies, Callbacks, execute_recovery,
}
use existential_identity_tes.DoomLoop.Recovery.{recovery_never_confirmed}
use existential_identity_tes.DoomLoop.Polls.{stalled, has_result, detect_poll_no_progress_exact}
use existential_identity_tes.DoomLoop.Repeats.{
  occurrences, detect_generic_repeat_exact, is_critical,
}
use existential_identity_tes.DoomLoop.Runs.{Swings, detect_ping_pong-Swings}

-- A library whose hash looks at the length of a text only; commands are their own arguments.
abbrev py : Library (List ℕ)
py = record {
  dumps = λ args. some args;
  str = λ args. args;
  dumps_text = λ text. text;
  dumps_calls = map (λ c. 0);
  sha256 = λ text. if length text == 1 then "6b" else if length text == 2 then "d4" else "e3";
  command = λ args. some args;
  sub = λ pattern text. text;
  strip = λ text. text;
  lower = λ text. text;
  is_space = λ c. c == 32;
}

abbrev called : String → ToolCallRecord
called hash = record {
  tool_name = "read_file";
  args_hash = hash;
  fuzzy_hash = hash;
  result_hash = "";
  result_text = [];
  timestamp = 0;
  agent_id = "main";
}

-- Three calls alike, far apart in time.
abbrev stuck : Detector
stuck = record {
  config = default_config;
  history = called "6b" ∷ called "6b" ∷ called "6b" ∷ [];
  call_timestamps = 200_000 ∷ 100_000 ∷ 0 ∷ [];
  last_detect_hash = "";
  cached_result = none;
}

abbrev eager : Callbacks
eager action = some (λ r d. (some true, d))

abbrev thorough : Callbacks
thorough action = some (λ r d. (some true, reset d))

abbrev swinging : List ToolCallRecord
swinging = called "6b" ∷ called "d4" ∷ called "6b" ∷ called "d4" ∷ []

abbrev strict : Thresholds
strict = record { warn = 2; critical = 3 }

stuck_reported : (detect py 300_000 stuck).0.stuck ≡ true
unfolding detect fingerprint recompute detect_generic_repeat first_report Sort.sort tally
    adaptive_thresholds
stuck_reported = refl

recovery_never_confirmed_example :
    (execute_recovery py 900_000 default_strategies eager
      (detect py 300_000 stuck).0
      (detect py 300_000 stuck).1).0
    ≡ false
recovery_never_confirmed_example =
    recovery_never_confirmed py 300_000 900_000 default_strategies eager stuck stuck_reported
      (λ action callback r e k. ap (λ o. elim o [ none ↦ e | some f ↦ (f r e).1 ]) (sym k))

detect_generic_repeat_exact_example :
    (((detect_generic_repeat stuck.history strict).stuck ≡ true)
      ↔ ((k : Key) × ((2 ≤ occurrences k stuck.history) ⊎ (3 ≤ occurrences k stuck.history))))
    × ((is_critical (detect_generic_repeat stuck.history strict).level ≡ true)
        ↔ ((k : Key) × (3 ≤ occurrences k stuck.history)))
detect_generic_repeat_exact_example =
    detect_generic_repeat_exact stuck.history strict (omega arith) (omega arith)

swinging_reported : (detect_ping_pong swinging strict).stuck ≡ true
unfolding detect_ping_pong oscillation find_other same_key signature judge alternations
swinging_reported = refl

detect_ping_pong-Swings_example :
    Swings strict (map signature swinging) (detect_ping_pong swinging strict)
detect_ping_pong-Swings_example = detect_ping_pong-Swings swinging strict swinging_reported

detect_poll_no_progress_exact_example :
    detect_poll_no_progress py default_config stuck.history strict
    ≡ judge poll_no_progress strict (stalled py default_config (select has_result stuck.history))
detect_poll_no_progress_exact_example =
    detect_poll_no_progress_exact py default_config stuck.history strict
