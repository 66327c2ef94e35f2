-- ===== src/DoomLoop/Detect.antt =====
-- `detect` and `execute_recovery` of tical_code/core/doom_loop.py, with the cache of the last result.
use existential_identity_tes.Base.{
  ℕ, ltb, if◌then◌else◌, String, Bool, true, false, not, List, Option, none, some, length, map,
}
use existential_identity_tes.Base.Text.{str_eq}
use existential_identity_tes.DoomLoop.{
  RecoveryAction, switch_tool, force_summarize, rollback_steps, downgrade_model, DetectorType,
  generic_repeat, poll_no_progress, ping_pong, cross_agent, ToolCallRecord, LoopDetectionResult,
  no_loop, DoomLoopConfig, Detector, Library,
}
use existential_identity_tes.DoomLoop.Detectors.{
  Thresholds, adaptive_thresholds, detect_generic_repeat, detect_poll_no_progress, detect_ping_pong,
  detect_cross_agent,
}

-- The detectors in their order: the first that reports a loop is the result.
unfoldable pub first_stuck : LoopDetectionResult → LoopDetectionResult → LoopDetectionResult
first_stuck r s = if r.stuck then r else s

abbrev pub call_of : ToolCallRecord → String × String × String × String
call_of r = (r.tool_name, r.args_hash, r.result_hash, r.agent_id)

module _ {Args : Type 0} (py : Library Args) where
  -- The part of `detect` below its cache.
  unfoldable pub compute : DoomLoopConfig → Thresholds → List ToolCallRecord → LoopDetectionResult
  unfolding first_stuck
  compute config t history = first_stuck (detect_generic_repeat history t) (
      first_stuck (detect_poll_no_progress py config history t) (
        first_stuck (detect_ping_pong history t)
          (if config.cross_agent_enabled then detect_cross_agent history t else no_loop)))

  -- `current_hash`
  unfoldable pub fingerprint : List ToolCallRecord → String
  fingerprint history = py.sha256 (py.dumps_calls (map call_of history))

  unfoldable pub recompute : ℕ → Detector → LoopDetectionResult × Detector
  unfolding compute
  recompute now d =
      let r = compute d.config (adaptive_thresholds now d.config d.call_timestamps) d.history in
      (r, record d { last_detect_hash = fingerprint d.history; cached_result = some r })

  unfoldable pub detect : ℕ → Detector → LoopDetectionResult × Detector
  detect now d =
      if not d.config.enabled
      then (no_loop, d)
      else if ltb (length d.history) 3
      then (no_loop, d)
      else if str_eq (fingerprint d.history) d.last_detect_hash
      then elim d.cached_result [ none ↦ recompute now d | some r ↦ (r, d) ]
      else recompute now d

-- The strategies of `__init__`, and `set_recovery_strategy`.
abbrev pub Strategies : Type 0
Strategies = DetectorType → RecoveryAction

unfoldable pub default_strategies : Strategies
default_strategies generic_repeat = switch_tool
default_strategies poll_no_progress = force_summarize
default_strategies ping_pong = rollback_steps
default_strategies cross_agent = downgrade_model

-- `self._recovery_strategies.get(result.detector, FORCE_SUMMARIZE)`
unfoldable pub recovery_for : Strategies → Option DetectorType → RecoveryAction
recovery_for strategies none = force_summarize
recovery_for strategies (some detector) = strategies detector

-- A callback answers, or raises (none), and may use the detector.
abbrev pub Callback : Type 0
Callback = LoopDetectionResult → Detector → Option Bool × Detector

abbrev pub Callbacks : Type 0
Callbacks = RecoveryAction → Option Callback

unfoldable pub with_recovery : RecoveryAction → LoopDetectionResult → LoopDetectionResult
with_recovery action r = record r { recovery = action }

module _ {Args : Type 0} (py : Library Args) where
  -- After the callback: its success stands only if no loop is detected any more.
  unfoldable pub confirm : ℕ → Option Bool × Detector → Bool × Detector
  unfolding detect
  confirm now (none, d) = (false, d)
  confirm now (some false, d) = (false, d)
  confirm now (some true, d) = let (r, d') = detect py now d in (not r.stuck, d')

  -- `execute_recovery`, of a result that is the object in the cache, as `detect` returns it.
  unfoldable pub execute_recovery :
      ℕ → Strategies → Callbacks → LoopDetectionResult → Detector → Bool × Detector
  unfolding recovery_for with_recovery confirm
  execute_recovery now strategies callbacks result d =
      let action = recovery_for strategies result.detector in
      let marked = record d { cached_result = some (with_recovery action result) } in
      if not d.config.recovery_enabled then (false, d) else elim (callbacks action) [
        | none ↦ (false, marked)
        | some callback ↦ confirm now (callback (with_recovery action result) marked)
      ]
