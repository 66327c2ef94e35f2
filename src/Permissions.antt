-- ===== src/Permissions.antt =====
-- tical_code/core/permission_checker.py: whether a tool may run, by the mode and the lists of allowed
-- and denied tools. A set is a list; no operation reads its order, but to_dict, which sorts it.
pub mod Decisions
pub mod Denied
mod Samples
use Prim.Native.String.{◌++◌}
use existential_identity_tes.Base.{
  if◌then◌else◌, String, Bool, true, false, not, ◌&&◌, ◌||◌, List, [], ◌∷◌, Option, none, some,
  select,
}
use existential_identity_tes.Base.Text.{str_eq, codes, contains, elem}
use existential_identity_tes.Base.Sort

pub data PermissionMode : Type 0 where
  default_mode accept_edits bypass plan auto : PermissionMode

abbrev pub plan_read_only_tools : List String
plan_read_only_tools =
    "file_read" ∷ "file_search" ∷ "list_dir" ∷ "memory_load" ∷ "memory_search" ∷ "check_self"
    ∷ "web_fetch" ∷ "vigil_status" ∷ "get_subagent_result" ∷ []

abbrev pub accept_edits_tools : List String
accept_edits_tools =
    "file_read" ∷ "file_write" ∷ "file_patch" ∷ "file_search" ∷ "list_dir" ∷ "web_fetch" ∷ []

abbrev pub always_allowed : List String
always_allowed = "check_self" ∷ "memory_load" ∷ "memory_search" ∷ "vigil_status" ∷ []

abbrev pub write_tools : List String
write_tools =
    "file_write" ∷ "file_patch" ∷ "bash" ∷ "shell_exec" ∷ "memory_save" ∷ "state_save" ∷ "chat_send"
    ∷ "delegate_task" ∷ "end_task" ∷ []

pub record PermissionChecker : Type 0 where
  pub mode : PermissionMode
  pub allowed_tools : List String
  pub denied_tools : List String
  pub write_approval : Bool

-- `tools.add(tool_name)` and `tools.discard(tool_name)`
unfoldable pub add : String → List String → List String
add tool_name tools = if elem tool_name tools then tools else tool_name ∷ tools

unfoldable pub discard : String → List String → List String
discard tool_name tools = select (λ t. not (str_eq t tool_name)) tools

-- `set(tools)`
unfoldable pub to_set : List String → List String
unfolding add
to_set [] = []
to_set (t ∷ ts) = add t (to_set ts)

-- PermissionChecker.__init__
unfoldable pub new_checker :
    PermissionMode → Option (List String) → Option (List String) → Bool → PermissionChecker
unfolding to_set
new_checker mode allowed_tools denied_tools write_approval = record {
  mode = mode;
  allowed_tools = elim allowed_tools [ none ↦ [] | some ts ↦ to_set ts ];
  denied_tools = elim denied_tools [ none ↦ [] | some ts ↦ to_set ts ];
  write_approval = write_approval;
}

-- The end of can_use_tool: DEFAULT mode, and what the other modes leave.
unfoldable pub default_rule : String → Bool → Bool × String
default_rule tool_name write_approval =
    if elem tool_name plan_read_only_tools
    then (true, "Default: read-only tool allowed")
    else (if write_approval && elem tool_name write_tools
        then (true, "Write approval required")
        else (if write_approval
            then (true, "Read tool allowed (write_approval gate)")
            else (true, "Default: destructive tool requires confirmation")))

unfoldable pub mode_rule : String → PermissionMode → Bool → Bool × String
unfolding default_rule
mode_rule tool_name default_mode write_approval = default_rule tool_name write_approval
mode_rule tool_name accept_edits write_approval =
    if elem tool_name accept_edits_tools
    then (true, "Auto-approved in acceptEdits mode")
    else default_rule tool_name write_approval
mode_rule tool_name bypass write_approval = (true, "Bypass mode")
mode_rule tool_name plan write_approval =
    if elem tool_name plan_read_only_tools
    then (true, "Read-only tool in plan mode")
    else (false, "Tool '" ++ (tool_name ++ "' blocked in plan mode (read-only)"))
mode_rule tool_name auto write_approval = default_rule tool_name write_approval

unfoldable pub can_use_tool : String → PermissionChecker → Bool × String
unfolding mode_rule
can_use_tool tool_name c =
    if elem tool_name c.denied_tools
    then (false, "Tool '" ++ (tool_name ++ "' is denied by policy"))
    else (if elem tool_name c.allowed_tools
        then (true, "Explicitly allowed")
        else (if elem tool_name always_allowed
            then (true, "Always allowed")
            else mode_rule tool_name c.mode c.write_approval))

unfoldable pub strict_answer : Bool × String → Bool
unfolding contains
strict_answer (allowed, reason) =
    if allowed && contains (codes "requires confirmation") (codes reason) then false else allowed

unfoldable pub can_use_tool_strict : String → PermissionChecker → Bool
unfolding can_use_tool strict_answer
can_use_tool_strict tool_name c = strict_answer (can_use_tool tool_name c)

unfoldable pub mode_value : PermissionMode → String
mode_value default_mode = "default"
mode_value accept_edits = "acceptEdits"
mode_value bypass = "bypassPermissions"
mode_value plan = "plan"
mode_value auto = "auto"

unfoldable pub set_mode : PermissionMode → PermissionChecker → PermissionChecker
set_mode mode c = record c { mode = mode }

unfoldable pub add_allowed_tool : String → PermissionChecker → PermissionChecker
unfolding add
add_allowed_tool t c = record c { allowed_tools = add t c.allowed_tools }

unfoldable pub add_denied_tool : String → PermissionChecker → PermissionChecker
unfolding add
add_denied_tool t c = record c { denied_tools = add t c.denied_tools }

unfoldable pub remove_allowed_tool : String → PermissionChecker → PermissionChecker
unfolding discard
remove_allowed_tool t c = record c { allowed_tools = discard t c.allowed_tools }

unfoldable pub remove_denied_tool : String → PermissionChecker → PermissionChecker
unfolding discard
remove_denied_tool t c = record c { denied_tools = discard t c.denied_tools }

-- The dictionary of to_dict, in which from_dict allows for missing keys.
pub record CheckerDict : Type 0 where
  pub mode : Option String
  pub allowed_tools : Option (List String)
  pub denied_tools : Option (List String)

-- `sorted`, by the order `le` of texts.
unfoldable pub to_dict : (String → String → Bool) → PermissionChecker → CheckerDict
unfolding mode_value
to_dict le c = record {
  mode = some (mode_value c.mode);
  allowed_tools = some (Sort.sort le c.allowed_tools);
  denied_tools = some (Sort.sort le c.denied_tools);
}

-- PermissionMode(mode_str), and DEFAULT for a text that is no mode.
unfoldable pub parse_mode : String → PermissionMode
parse_mode s =
    if str_eq s "acceptEdits"
    then accept_edits
    else (if str_eq s "bypassPermissions"
        then bypass
        else (if str_eq s "plan" then plan else (if str_eq s "auto" then auto else default_mode)))

unfoldable pub from_dict : CheckerDict → PermissionChecker
unfolding parse_mode new_checker
from_dict d =
    new_checker (elim d.mode [ none ↦ default_mode | some s ↦ parse_mode s ]) d.allowed_tools
      d.denied_tools false
