-- ===== src/Permissions/Decisions.antt =====
-- The decisions of can_use_tool and its strict form, described apart from the order of the tests, and
-- what a checker keeps when it is written to a dictionary and read back.
use existential_identity_tes.Base.{
  ◌≡◌, refl, ap, sym, ◌∙◌, if◌then◌else◌, String, Bool, true, false, not, ◌&&◌, ◌||◌, List, [], ◌∷◌,
  arith, Bool-cases, inl, inr,
}
use existential_identity_tes.Base.Text.{str_eq, str_eq_iff, contains, starts_with, elem}
use existential_identity_tes.Base.Sort.{sort, insert}
use existential_identity_tes.Permissions.{
  PermissionMode, default_mode, accept_edits, bypass, plan, auto, plan_read_only_tools,
  accept_edits_tools, always_allowed, write_tools, PermissionChecker, add, to_set, new_checker,
  default_rule, mode_rule, can_use_tool, can_use_tool_strict, strict_answer, mode_value, to_dict,
  parse_mode, from_dict,
}

abbrev pub is_plan : PermissionMode → Bool
is_plan plan = true
is_plan _ = false

-- A tool runs unless it is denied, or writes in plan mode without being allowed.
unfoldable pub may_run : String → PermissionChecker → Bool
may_run t c =
    not (elem t c.denied_tools)
    && (elem t c.allowed_tools
        || (elem t always_allowed || (not (is_plan c.mode) || elem t plan_read_only_tools)))

-- Whether a mode lets a tool run without a question.
unfoldable pub runs_freely : String → PermissionMode → Bool
runs_freely t bypass = true
runs_freely t accept_edits = elem t accept_edits_tools || elem t plan_read_only_tools
runs_freely t _ = elem t plan_read_only_tools

-- The strict form allows what is allowed by a list, by the mode, or by the gate for writes.
unfoldable pub may_run_strictly : String → PermissionChecker → Bool
unfolding runs_freely
may_run_strictly t c =
    not (elem t c.denied_tools)
    && (elem t c.allowed_tools
        || (elem t always_allowed
            || (runs_freely t c.mode || (not (is_plan c.mode) && c.write_approval))))

default_allows : (t : String) (w : Bool) → (default_rule t w).0 ≡ true
unfolding default_rule
default_allows t w = elim (Bool-cases (elem t plan_read_only_tools)) [
  | inl e ↦ rw e refl
  | inr e ↦ rw e (elim (Bool-cases (w && elem t write_tools)) [
    | inl f ↦ rw f refl
    | inr f ↦ rw f (elim (Bool-cases w) [ inl g ↦ rw g refl | inr g ↦ rw g refl ])
  ])
]

mode_allows :
    (t : String) (m : PermissionMode) (w : Bool)
    → (mode_rule t m w).0 ≡ (not (is_plan m) || elem t plan_read_only_tools)
unfolding mode_rule
mode_allows t default_mode w = default_allows t w
mode_allows t accept_edits w = elim (Bool-cases (elem t accept_edits_tools)) [
  | inl e ↦ rw e refl
  | inr e ↦ rw e (default_allows t w)
]
mode_allows t bypass w = refl
mode_allows t plan w = elim (Bool-cases (elem t plan_read_only_tools)) [
  | inl e ↦ rw e refl
  | inr e ↦ rw e refl
]
mode_allows t auto w = default_allows t w

-- The strict answer to the default rule: a tool that reads, or any tool behind the gate for writes.
default_strict :
    (t : String) (w : Bool) → strict_answer (default_rule t w) ≡ (elem t plan_read_only_tools || w)
unfolding default_rule strict_answer contains starts_with
default_strict t w = elim (Bool-cases (elem t plan_read_only_tools)) [
  | inl e ↦ rw e refl
  | inr e ↦ rw e (go w)
]
  where
    go :
        (w : Bool)
        → strict_answer (
            if w && elem t write_tools
            then (true, "Write approval required")
            else (if w
                then (true, "Read tool allowed (write_approval gate)")
                else (true, "Default: destructive tool requires confirmation")))
          ≡ w
    go true = elim (Bool-cases (elem t write_tools)) [ inl g ↦ rw g refl | inr g ↦ rw g refl ]
    go false = refl

mode_strict :
    (t : String) (m : PermissionMode) (w : Bool)
    → strict_answer (mode_rule t m w) ≡ (runs_freely t m || (not (is_plan m) && w))
unfolding mode_rule runs_freely strict_answer contains starts_with
mode_strict t default_mode w = default_strict t w
mode_strict t accept_edits w = elim (Bool-cases (elem t accept_edits_tools)) [
  | inl e ↦ rw e refl
  | inr e ↦ rw e (default_strict t w)
]
mode_strict t bypass w = refl
mode_strict t plan w = elim (Bool-cases (elem t plan_read_only_tools)) [
  | inl e ↦ rw e refl
  | inr e ↦ rw e refl
]
mode_strict t auto w = default_strict t w

-- can_use_tool and its strict form decide as described: a tool may run unless it is denied, or plan
-- mode forbids it and no list allows it. Strictly it may run if moreover a list allows it, or the
-- mode lets it run freely, or, outside plan mode, the gate for writes is on.
pub can_use_tool_lem :
    (t : String) (c : PermissionChecker)
    → ((can_use_tool t c).0 ≡ may_run t c) × (can_use_tool_strict t c ≡ may_run_strictly t c)
unfolding can_use_tool can_use_tool_strict may_run may_run_strictly strict_answer contains
    starts_with
can_use_tool_lem t c = elim (Bool-cases (elem t c.denied_tools)) [
  | inl e ↦ rw e (refl, refl)
  | inr e ↦ rw e (elim (Bool-cases (elem t c.allowed_tools)) [
    | inl f ↦ rw f (refl, refl)
    | inr f ↦ rw f (elim (Bool-cases (elem t always_allowed)) [
      | inl g ↦ rw g (refl, refl)
      | inr g ↦ rw g (mode_allows t c.mode c.write_approval, mode_strict t c.mode c.write_approval)
    ])
  ])
]

free_or_gate :
    (t : String) (m : PermissionMode)
    → (runs_freely t m || (not (is_plan m) && true))
      ≡ (not (is_plan m) || elem t plan_read_only_tools)
unfolding runs_freely
free_or_gate t default_mode = ground arith
free_or_gate t accept_edits = ground arith
free_or_gate t bypass = refl
free_or_gate t plan = ground arith
free_or_gate t auto = ground arith

-- With the gate for writes on, the strict form denies nothing that can_use_tool allows.
pub can_use_tool_strict-gate :
    (t : String) (c : PermissionChecker)
    → c.write_approval ≡ true
    → can_use_tool_strict t c ≡ (can_use_tool t c).0
unfolding may_run may_run_strictly
can_use_tool_strict-gate t c e =
    (can_use_tool_lem t c).1
    ∙ (ap
          (λ w.
            not (elem t c.denied_tools)
            && (elem t c.allowed_tools
                || (elem t always_allowed
                    || (runs_freely t c.mode || (not (is_plan c.mode) && w)))))
          e
        ∙ (ap
              (λ b.
                not (elem t c.denied_tools)
                && (elem t c.allowed_tools || (elem t always_allowed || b)))
              (free_or_gate t c.mode)
            ∙ sym (can_use_tool_lem t c).0))

same_mode : (m : PermissionMode) → parse_mode (mode_value m) ≡ m
unfolding parse_mode mode_value
same_mode default_mode = refl
same_mode accept_edits = refl
same_mode bypass = refl
same_mode plan = refl
same_mode auto = refl

module _ (le : String → String → Bool) (t : String) where
  elem-insert :
      (s : String) (ts : List String) → elem t (insert le s ts) ≡ (str_eq s t || elem t ts)
  unfolding insert elem
  elem-insert s [] = refl
  elem-insert s (r ∷ rs) = elim (Bool-cases (le s r)) [
    | inl e ↦ rw e refl
    | inr e ↦ rw (e, elem-insert s rs) (ground arith)
  ]

  elem-sort : (ts : List String) → elem t (sort le ts) ≡ elem t ts
  unfolding sort elem
  elem-sort [] = refl
  elem-sort (s ∷ ss) = rw (elem-insert s (sort le ss), elem-sort ss) refl

  absorbed :
      (s : String) (ts : List String) → elem s ts ≡ true → str_eq s t ≡ true → elem t ts ≡ true
  absorbed s ts h e = rw (← (str_eq_iff s t).0 e) h

  elem-to_set : (ts : List String) → elem t (to_set ts) ≡ elem t ts
  unfolding to_set add elem
  elem-to_set [] = refl
  elem-to_set (s ∷ ss) = elim (Bool-cases (elem s (to_set ss))) [
    | inl e ↦ rw e (ground (arith, elem-to_set ss, absorbed s (to_set ss) e))
    | inr e ↦ rw (e, elem-to_set ss) refl
  ]

  -- What is read back from a checker's dictionary decides as the checker does without the gate for
  -- writes, which the dictionary leaves out.
  pub from_dict-to_dict :
      (c : PermissionChecker)
      → can_use_tool t (from_dict (to_dict le c))
        ≡ can_use_tool t (record c { write_approval = false })
  unfolding can_use_tool from_dict to_dict new_checker
  from_dict-to_dict c =
      rw
        (
          elem-to_set (sort le c.denied_tools),
          elem-to_set (sort le c.allowed_tools),
          elem-sort c.denied_tools,
          elem-sort c.allowed_tools,
          same_mode c.mode,
        )
        refl
