-- ===== src/Permissions/Samples.antt =====
-- A checker with the gate for writes, and the theorems at it.
use existential_identity_tes.Base.{◌≡◌, refl, Bool, true, false, [], ◌∷◌}
use existential_identity_tes.Base.Text.{contains, starts_with, elem}
use existential_identity_tes.Permissions.{
  PermissionMode, default_mode, plan, bypass, PermissionChecker, can_use_tool, can_use_tool_strict,
  strict_answer, default_rule, mode_rule, add_denied_tool, from_dict, to_dict,
}
use existential_identity_tes.Permissions.Decisions.{
  may_run, may_run_strictly, can_use_tool_lem, from_dict-to_dict,
}
use existential_identity_tes.Permissions.Denied.{
  mode_change, allow, no_longer_deny, changes, changes-denied,
}

abbrev checker : PermissionMode → Bool → PermissionChecker
checker mode gate = record {
  mode = mode;
  allowed_tools = "web_fetch" ∷ [];
  denied_tools = "end_task" ∷ [];
  write_approval = gate;
}

-- Without the gate the strict form denies a write, and with it no longer.
strict_without_gate : can_use_tool_strict "file_write" (checker default_mode false) ≡ false
unfolding can_use_tool_strict can_use_tool strict_answer default_rule mode_rule contains starts_with
    elem
strict_without_gate = refl

strict_with_gate : can_use_tool_strict "file_write" (checker default_mode true) ≡ true
unfolding can_use_tool_strict can_use_tool strict_answer default_rule mode_rule contains starts_with
    elem
strict_with_gate = refl

can_use_tool_lem_example :
    ((can_use_tool "file_write" (checker plan false)).0 ≡ may_run "file_write" (checker plan false))
    × (can_use_tool_strict "file_write" (checker plan false)
        ≡ may_run_strictly "file_write" (checker plan false))
can_use_tool_lem_example = can_use_tool_lem "file_write" (checker plan false)

from_dict-to_dict_example :
    can_use_tool "web_fetch" (from_dict (to_dict (λ a b. true) (checker plan true)))
    ≡ can_use_tool "web_fetch" (checker plan false)
from_dict-to_dict_example = from_dict-to_dict (λ a b. true) "web_fetch" (checker plan true)

changes-denied_example :
    let after =
      changes
        (mode_change bypass ∷ allow "bash" ∷ no_longer_deny "end_task" ∷ [])
        (add_denied_tool "bash" (checker default_mode false)) in
    ((can_use_tool "bash" after).0 ≡ false) × (can_use_tool_strict "bash" after ≡ false)
changes-denied_example =
    changes-denied "bash" (mode_change bypass ∷ allow "bash" ∷ no_longer_deny "end_task" ∷ [])
      (checker default_mode false) (tt, (tt, (refl, tt)))
