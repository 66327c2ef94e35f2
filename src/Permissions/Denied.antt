-- ===== src/Permissions/Denied.antt =====
-- A tool that is denied stays denied until it is taken off the list.
use existential_identity_tes.Base.{◌≡◌, refl, String, true, false, List, [], ◌∷◌, All, arith}
use existential_identity_tes.Base.Text.{str_eq, str_eq_iff, elem}
use existential_identity_tes.Permissions.{
  PermissionMode, PermissionChecker, add, discard, can_use_tool, can_use_tool_strict, strict_answer,
  set_mode, add_allowed_tool, add_denied_tool, remove_allowed_tool, remove_denied_tool,
}

-- The changes of a checker in use.
pub data Change : Type 0 where
  mode_change : PermissionMode → Change
  allow deny no_longer_allow no_longer_deny : String → Change

unfoldable pub change : Change → PermissionChecker → PermissionChecker
unfolding set_mode add_allowed_tool add_denied_tool remove_allowed_tool remove_denied_tool
change (mode_change m) c = set_mode m c
change (allow t) c = add_allowed_tool t c
change (deny t) c = add_denied_tool t c
change (no_longer_allow t) c = remove_allowed_tool t c
change (no_longer_deny t) c = remove_denied_tool t c

unfoldable pub changes : List Change → PermissionChecker → PermissionChecker
unfolding change
changes [] c = c
changes (x ∷ xs) c = changes xs (change x c)

module _ (t : String) where
  -- The change does not take the tool off the list.
  abbrev pub Leaves : Change → Type 0
  Leaves (no_longer_deny s) = str_eq s t ≡ false
  Leaves _ = Unit

  elem-add : (s : String) (ts : List String) → elem t ts ≡ true → elem t (add s ts) ≡ true
  unfolding add elem
  elem-add s ts h = ground (arith, h)

  elem-add_self : (ts : List String) → elem t (add t ts) ≡ true
  unfolding add elem
  elem-add_self ts = ground (arith, (str_eq_iff t t).1 refl)

  elem-discard :
      (s : String) (ts : List String)
      → str_eq s t ≡ false
      → elem t ts ≡ true
      → elem t (discard s ts) ≡ true
  unfolding discard elem
  elem-discard s [] n h = h
  elem-discard s (r ∷ rs) n h =
      ground (arith, n, h, elem-discard s rs n, str_eq_iff r s, str_eq_iff r t, str_eq_iff s t)

  denied-change :
      (x : Change) (c : PermissionChecker)
      → Leaves x
      → elem t c.denied_tools ≡ true
      → elem t (change x c).denied_tools ≡ true
  unfolding change add_denied_tool remove_denied_tool
  denied-change (mode_change m) c l h = h
  denied-change (allow s) c l h = h
  denied-change (deny s) c l h = elem-add s c.denied_tools h
  denied-change (no_longer_allow s) c l h = h
  denied-change (no_longer_deny s) c l h = elem-discard s c.denied_tools l h

  denied-changes :
      (xs : List Change) (c : PermissionChecker)
      → All Leaves xs
      → elem t c.denied_tools ≡ true
      → elem t (changes xs c).denied_tools ≡ true
  unfolding changes
  denied-changes [] c l h = h
  denied-changes (x ∷ xs) c l h = denied-changes xs (change x c) l.1 (denied-change x c l.0 h)

  -- Once a tool is denied, no sequence of changes that does not take it off the list of denied tools
  -- lets it run, in whatever mode and whatever is allowed.
  pub changes-denied :
      (xs : List Change) (c : PermissionChecker)
      → All Leaves xs
      → let after = changes xs (add_denied_tool t c) in
        ((can_use_tool t after).0 ≡ false) × (can_use_tool_strict t after ≡ false)
  unfolding can_use_tool can_use_tool_strict strict_answer add_denied_tool add elem
  changes-denied xs c l =
      rw (denied-changes xs (add_denied_tool t c) l (elem-add_self c.denied_tools)) (refl, refl)
