-- ===== src/Cron/Task.antt =====
-- What a job runs: _execute_tool, _execute_prompt and _execute_shell of tical_code/core/cron.py. The
-- framework's tools, the check of a command, the shell and the texts of values are given.
use existential_identity_tes.Base.{
  ℕ, min, if◌then◌else◌, String, Bool, true, false, ◌&&◌, List, [], ◌∷◌, Option, none, some,
}
use Prim.Native.String.{◌++◌ as ◌+++◌}
use existential_identity_tes.Base.Dict
use existential_identity_tes.Cron.Job.{Python, CronJob, tool, prompt, shell, unknown}

-- What a call does that is awaited: it returns data or None, raises an error or TimeoutError.
pub data Attempt : Type 0 where
  returned : Option String → Attempt
  raised : String → Attempt
  timed_out : Attempt

-- The result of the framework's execute_tool.
pub data ToolReply : Type 0 where
  replied : Bool → Option String → Option String → ToolReply
  failed : Attempt → ToolReply

-- The framework that a job meets at one execution: its execute_tool if it has one, the handler that
-- its registry holds under a name, the check of a command (the text that blocks it), the shell
-- under a limit of seconds, the first 100 characters of a prompt (nothing where it has none), a
-- value as text, a number as a value, and the errors of Python.
pub record World (Json : Type 0) : Type 0 where
  pub execute_tool : Option (String → ToolReply)
  pub handler : Json → Option (Json → Attempt)
  pub safety_check : Json → Option String
  pub shell : Json → ℕ → Attempt
  pub excerpt : Json → Option String
  pub show : Json → String
  pub number : ℕ → Json
  pub attribute_error : Json → String
  pub type_error : String

-- A prompt that waits for the model.
pub record Prompt (Json : Type 0) : Type 0 where
  pub job_id : String
  pub prompt : Json
  pub timestamp : ℕ

module _ {Json : Type 0} (py : Python Json) where
  -- A value that is there and counts as true.
  unfoldable pub if_true : Option Json → Option Json
  if_true none = none
  if_true (some v) = if py.is_true v then some v else none

  -- `params.get(a) or params.get(b)`, where it counts as true
  unfoldable pub get_either : Dict.Dict Json → String → String → Option Json
  unfolding if_true
  get_either params a b = elim (if_true (Dict.get params a)) [
    | none ↦ if_true (Dict.get params b)
    | some v ↦ some v
  ]

  abbrev pub or_text : Option String → String → String
  or_text none s = s
  or_text (some t) s = t

  -- `if not exec_result.get('success'): raise …`
  unfoldable pub unwrap_reply : String → ToolReply → Attempt
  unwrap_reply message (failed a) = a
  unwrap_reply message (replied true reply error) = returned reply
  unwrap_reply message (replied false reply error) = raised (or_text error message)

  unfoldable pub instruction : World Json → Json → Json → String
  instruction w name params = py.dumps (py.object (("tool", name) ∷ ("params", params) ∷ []))

  unfoldable pub call_tool : World Json → Json → Json → Attempt
  unfolding unwrap_reply instruction
  call_tool w name params = elim w.execute_tool [
    | some run ↦ unwrap_reply "Tool execution failed" (run (instruction w name params))
    | none ↦ elim (w.handler name) [
      | none ↦ raised ("Tool not found or not executable: " +++ w.show name)
      | some run ↦ run params
    ]
  ]

  unfoldable pub execute_tool : World Json → Dict.Dict Json → Attempt
  unfolding get_either call_tool
  execute_tool w task_params = elim (get_either task_params "tool_name" "tool") [
    | none ↦ raised "task_params must include 'tool_name' or 'tool'"
    | some name ↦
        call_tool w name
          (elim (get_either task_params "params" "parameters") [ none ↦ py.object [] | some v ↦ v ])
  ]

  -- What the prompt is, before it is queued.
  unfoldable pub prompt_text : Dict.Dict Json → Option Json
  unfolding get_either
  prompt_text task_params = get_either task_params "text" "prompt"

  unfoldable pub execute_prompt : World Json → Dict.Dict Json → Attempt
  unfolding prompt_text
  execute_prompt w task_params = elim (prompt_text task_params) [
    | none ↦ raised "task_params must include 'text' or 'prompt'"
    | some v ↦ elim (w.excerpt v) [
      | none ↦ raised w.type_error
      | some s ↦ returned (some ("Prompt queued for AI: " +++ s +++ "..."))
    ]
  ]

  unfoldable pub run_shell : World Json → ℕ → Json → Attempt
  unfolding unwrap_reply instruction
  run_shell w timeout cmd = elim w.execute_tool [
    | some run ↦ unwrap_reply "Shell execution failed" (
        run (
          instruction w (py.text "shell_exec")
            (py.object (("cmd", cmd) ∷ ("timeout", w.number timeout) ∷ []))))
    | none ↦ w.shell cmd (min timeout 300)
  ]

  unfoldable pub execute_shell : World Json → ℕ → Dict.Dict Json → Attempt
  unfolding get_either run_shell
  execute_shell w timeout task_params = elim (get_either task_params "cmd" "command") [
    | none ↦ raised "task_params must include 'cmd' or 'command'"
    | some cmd ↦ elim (w.safety_check cmd) [
      | some reason ↦ raised ("BASH_BLACKLIST blocked: " +++ reason)
      | none ↦ run_shell w timeout cmd
    ]
  ]

  -- `job.task_params.get` of a value that is no dictionary raises.
  unfoldable pub with_params : World Json → Json → (Dict.Dict Json → Attempt) → Attempt
  with_params w task_params run = elim (py.as_dict task_params) [
    | none ↦ raised (w.attribute_error task_params)
    | some d ↦ run d
  ]

  -- The data, or an error, of one execution, by the type of the task.
  unfoldable pub run_task : World Json → CronJob Json → Attempt
  unfolding with_params execute_tool execute_prompt execute_shell
  run_task w job = elim job.task_type [
    | tool ↦ with_params w job.task_params (execute_tool w)
    | prompt ↦ with_params w job.task_params (execute_prompt w)
    | shell ↦ with_params w job.task_params (execute_shell w job.timeout)
    | unknown s ↦ raised ("Unknown task_type: " +++ s)
  ]

  -- The prompt that an execution queues, also where it raises after that.
  unfoldable pub queued_prompt : ℕ → CronJob Json → List (Prompt Json)
  unfolding prompt_text
  queued_prompt now job = elim job.task_type [
    | prompt ↦ elim (py.as_dict job.task_params) [
      | none ↦ []
      | some d ↦ elim (prompt_text d) [
        | none ↦ []
        | some v ↦ record { job_id = job.job_id; prompt = v; timestamp = now } ∷ []
      ]
    ]
    | _ ↦ []
  ]

-- `result` as execute_job fills it.
pub record RunResult : Type 0 where
  pub success : Bool
  pub reply : Option String
  pub error : Option String

-- `result['data'] is not None`, and the errors of the except clauses.
unfoldable pub attempt_outcome : (ℕ → String) → ℕ → Attempt → RunResult
attempt_outcome decimal timeout (returned none) = record {
  success = false;
  reply = none;
  error = none;
}
attempt_outcome decimal timeout (returned (some s)) = record {
  success = true;
  reply = some s;
  error = none;
}
attempt_outcome decimal timeout (raised e) = record {
  success = false;
  reply = none;
  error = some e;
}
attempt_outcome decimal timeout timed_out = record {
  success = false;
  reply = none;
  error = some ("Job timed out after " +++ decimal timeout +++ "s");
}

-- _verify_result: whether it passes, and its details.
unfoldable pub verify_result : Option String → Bool × String
verify_result none = (false, "Result is None or empty")
verify_result (some s) = (true, "Result is valid")

unfoldable pub verify_outcome : Bool → RunResult → RunResult
unfolding verify_result
verify_outcome verified o =
    if verified && o.success
    then (let (passed, details) = verify_result o.reply in
        if passed then o else record {
          success = false;
          reply = none;
          error = some ("Verification failed: " +++ details);
        })
    else o

-- The part of execute_job within `try`.
unfoldable pub job_outcome :
    {Json : Type 0} → Python Json → (ℕ → String) → World Json → CronJob Json → RunResult
unfolding run_task attempt_outcome verify_outcome
job_outcome py decimal w job =
    verify_outcome job.verified (attempt_outcome decimal job.timeout (run_task py w job))
