-- ===== src/Supervisor.antt =====
-- tical_code/core/task_supervisor.py: tasks in threads of their own, under one lock that is not
-- reentrant. A thread is the number of its start, and so is its abort flag. Each call of the main
-- thread is one transaction under the lock; between two of them the threads take their steps. The
-- directory of a task is its heartbeat, progress and state; writes succeed. Times are milliseconds.
pub mod Steps
pub mod Listed
pub mod Once
pub mod Stuck
pub mod Deadlock
mod Samples
use mathlib.Core.Option
use existential_identity_tes.Base.{
  ℕ, ◌-◌, ltb, if◌then◌else◌, String, Bool, true, false, not, ◌&&◌, ◌||◌, List, [], ◌∷◌, ◌++◌, map,
  Option, none, some, length, get_elem?, modify, select,
}
use existential_identity_tes.Base.Text.{str_eq}
use existential_identity_tes.Base.Dict

abbrev pub heartbeat_max_idle : ℕ
heartbeat_max_idle = 120_000

-- A thread runs its target, then waits for the lock to take its task off the lists, then resets its
-- heartbeat, and is dead.
pub data ThreadPhase : Type 0 where
  running closing leaving dead : ThreadPhase

pub record Worker : Type 0 where
  pub task_id : String
  pub phase : ThreadPhase

pub record Supervisor : Type 0 where
  pub tasks : Dict.Dict ℕ
  pub abort_flags : Dict.Dict ℕ
  pub flags_set : List ℕ
  pub threads : List Worker
  pub heartbeats : Dict.Dict ℕ
  pub progress : Dict.Dict String
  pub states : Dict.Dict String
  pub lock_held : Bool

-- A call returns, raises KeyError, or waits for a lock that its own thread holds.
pub data Outcome {ℓ} (A : Type ℓ) : Type ℓ where
  returned : A → Supervisor → Outcome A
  key_error : Supervisor → Outcome A
  blocked : Supervisor → Outcome A

pub data Event : Type 0 where
  ended : String → String → Event
  timed_out : String → Option ℕ → Event

pub record Progress : Type 0 where
  pub task_id : String
  pub text : String
  pub heartbeat_age : Option ℕ
  pub is_running : Bool

unfoldable pub new_supervisor : Supervisor
new_supervisor = record {
  tasks = [];
  abort_flags = [];
  flags_set = [];
  threads = [];
  heartbeats = [];
  progress = [];
  states = [];
  lock_held = false;
}

abbrev pub after {ℓ} : {A : Type ℓ} → Outcome A → Supervisor
after (returned a s) = s
after (key_error s) = s
after (blocked s) = s

abbrev pub is_blocked {ℓ} : {A : Type ℓ} → Outcome A → Bool
is_blocked (blocked s) = true
is_blocked _ = false

abbrev pub release {ℓ} : {A : Type ℓ} → Outcome A → Outcome A
release (returned a s) = returned a (record s { lock_held = false })
release (key_error s) = key_error (record s { lock_held = false })
release (blocked s) = blocked s

-- `with self._lock:`
unfoldable pub with_lock {ℓ} : {A : Type ℓ} → (Supervisor → Outcome A) → Supervisor → Outcome A
with_lock body s = if s.lock_held then blocked s else release (body (record s { lock_held = true }))

abbrev pub is_dead : ThreadPhase → Bool
is_dead dead = true
is_dead _ = false

-- `t.is_alive()`
unfoldable pub is_alive : ℕ → Supervisor → Bool
is_alive n s = elim (get_elem? s.threads n) [ none ↦ false | some w ↦ not (is_dead w.phase) ]

-- Whether a task is listed with a thread that is alive.
unfoldable pub alive_task : Option ℕ → Supervisor → Bool
unfolding is_alive
alive_task none s = false
alive_task (some n) s = is_alive n s

unfoldable pub touch_heartbeat : ℕ → String → Supervisor → Supervisor
touch_heartbeat now task_id s = record s { heartbeats = Dict.put s.heartbeats task_id now }

unfoldable pub heartbeat_age : ℕ → String → Supervisor → Option ℕ
heartbeat_age now task_id s = Option.map (λ ts. now - ts) (Dict.get s.heartbeats task_id)

-- heartbeat_ok with the default limit
unfoldable pub heartbeat_ok : ℕ → String → Supervisor → Bool
unfolding heartbeat_age
heartbeat_ok now task_id s = elim (heartbeat_age now task_id s) [
  | none ↦ false
  | some age ↦ ltb age heartbeat_max_idle
]

unfoldable pub set_progress : String → String → Supervisor → Supervisor
set_progress task_id text s = record s { progress = Dict.put s.progress task_id text }

unfoldable pub get_progress : String → Supervisor → String
get_progress task_id s = elim (Dict.get s.progress task_id) [ none ↦ "" | some text ↦ text ]

-- The lists, the state file, the heartbeat and the thread of a new start.
unfoldable pub launch : ℕ → String → Supervisor → Supervisor
unfolding touch_heartbeat
launch now task_id s =
    let n = length s.threads in
    touch_heartbeat now task_id (record s {
      tasks = Dict.put s.tasks task_id n;
      abort_flags = Dict.put s.abort_flags task_id n;
      states = Dict.put s.states task_id "running";
      threads = s.threads ++ record { task_id = task_id; phase = running } ∷ [];
    })

unfoldable pub start_task : ℕ → String → Supervisor → Outcome {0} Unit
unfolding with_lock alive_task launch
start_task now task_id = with_lock (λ s.
    if alive_task (Dict.get s.tasks task_id) s
    then returned tt s
    else returned tt (launch now task_id s))

unfoldable pub set_flag : Option ℕ → Supervisor → Outcome Bool
set_flag none s = returned false s
set_flag (some f) s = returned true (record s { flags_set = f ∷ s.flags_set })

unfoldable pub abort_task : String → Supervisor → Outcome Bool
unfolding with_lock set_flag
abort_task task_id = with_lock (λ s. set_flag (Dict.get s.abort_flags task_id) s)

unfoldable pub is_running : String → Supervisor → Outcome Bool
unfolding with_lock alive_task
is_running task_id = with_lock (λ s. returned (alive_task (Dict.get s.tasks task_id) s) s)

unfoldable pub list_active : Supervisor → Outcome (List String)
unfolding with_lock is_alive
list_active = with_lock (λ s. returned (map (λ e. e.0) (select (λ e. is_alive e.1 s) s.tasks)) s)

unfoldable pub running_count : Supervisor → Outcome ℕ
unfolding with_lock is_alive
running_count = with_lock (λ s. returned (length (select (λ e. is_alive e.1 s) s.tasks)) s)

-- One part of a loop's result, and then the rest of the loop.
abbrev pub and_then {ℓ} :
    {A : Type ℓ} → Outcome (List A) → (Supervisor → Outcome (List A)) → Outcome (List A)
and_then (returned es s) k = elim (k s) [
  | returned fs t ↦ returned (es ++ fs) t
  | key_error t ↦ key_error t
  | blocked t ↦ blocked t
]
and_then (key_error s) k = key_error s
and_then (blocked s) k = blocked s

abbrev pub keys {ℓ} : {V : Type ℓ} → Dict.Dict V → List String
keys d = map (λ e. e.0) d

unfoldable pub progress_of : ℕ → String → Supervisor → Outcome (List Progress)
unfolding is_running get_progress heartbeat_age
progress_of now task_id s = elim (is_running task_id s) [
  | returned b t ↦
      returned
        (record {
          task_id = task_id;
          text = get_progress task_id s;
          heartbeat_age = heartbeat_age now task_id s;
          is_running = b;
        }
          ∷ [])
        t
  | key_error t ↦ key_error t
  | blocked t ↦ blocked t
]

unfoldable pub progress_each : ℕ → List String → Supervisor → Outcome (List Progress)
unfolding progress_of
progress_each now [] s = returned [] s
progress_each now (id ∷ ids) s = and_then (progress_of now id s) (progress_each now ids)

unfoldable pub get_all_progress : ℕ → Supervisor → Outcome (List Progress)
unfolding with_lock progress_each
get_all_progress now = with_lock (λ s. progress_each now (keys s.tasks) s)

-- `age is not None and age > HEARTBEAT_MAX_IDLE`
unfoldable pub heartbeat_stale : ℕ → String → Supervisor → Bool
unfolding heartbeat_age
heartbeat_stale now task_id s = elim (heartbeat_age now task_id s) [
  | none ↦ false
  | some age ↦ ltb heartbeat_max_idle age
]

unfoldable pub state_of : String → Supervisor → String
state_of task_id s = elim (Dict.get s.states task_id) [ none ↦ "unknown" | some state ↦ state ]

unfoldable pub unlist : String → Supervisor → Supervisor
unlist task_id s = record s {
  tasks = Dict.remove s.tasks task_id;
  abort_flags = Dict.remove s.abort_flags task_id;
}

unfoldable pub time_out : ℕ → String → Supervisor → Outcome (List Event)
unfolding abort_task heartbeat_age
time_out now task_id s = elim (abort_task task_id s) [
  | returned b t ↦ returned (timed_out task_id (heartbeat_age now task_id s) ∷ []) t
  | key_error t ↦ key_error t
  | blocked t ↦ blocked t
]

unfoldable pub check_one : ℕ → String → Option ℕ → Supervisor → Outcome (List Event)
unfolding is_alive state_of unlist heartbeat_stale time_out
check_one now task_id none s = key_error s
check_one now task_id (some n) s =
    if is_alive n s
    then (if heartbeat_stale now task_id s then time_out now task_id s else returned [] s)
    else returned (ended task_id (state_of task_id s) ∷ []) (unlist task_id s)

unfoldable pub check_each : ℕ → List String → Supervisor → Outcome (List Event)
unfolding check_one
check_each now [] s = returned [] s
check_each now (id ∷ ids) s =
    and_then (check_one now id (Dict.get s.tasks id) s) (check_each now ids)

unfoldable pub check_tasks : ℕ → Supervisor → Outcome (List Event)
unfolding with_lock check_each
check_tasks now = with_lock (λ s. check_each now (keys s.tasks) s)

-- The tasks whose state file says that they run or wait.
unfoldable pub find_zombie_tasks : Supervisor → List String
find_zombie_tasks s =
    map (λ e. e.0) (select (λ e. str_eq e.1 "running" || str_eq e.1 "pending") s.states)

-- The steps of a thread: its target ends or raises, it takes its task off the lists, and it ends.
unfoldable pub in_phase : ThreadPhase → ℕ → Supervisor → Supervisor
in_phase p n s = record s { threads = modify s.threads n (λ w. record w { phase = p }) }

unfoldable pub end_target : Bool → ℕ → String → Supervisor → Supervisor
unfolding in_phase
end_target crashed n task_id s =
    let s' = in_phase closing n s in
    if crashed then record s' { states = Dict.put s'.states task_id "crashed" } else s'

unfoldable pub leave : ℕ → String → Supervisor → Supervisor
unfolding in_phase unlist
leave n task_id s = in_phase leaving n (unlist task_id s)

unfoldable pub end_thread : ℕ → String → Supervisor → Supervisor
unfolding in_phase touch_heartbeat
end_thread n task_id s = in_phase dead n (touch_heartbeat 0 task_id s)
