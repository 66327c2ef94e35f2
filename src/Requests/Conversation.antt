-- ===== src/Requests/Conversation.antt =====
-- The messages and tool calls of a request, with the tests on them that `_call_single` of
-- tical_code/core/model_failover.py makes.
use existential_identity_tes.Base.{
  ℕ, String, Bool, true, false, not, ◌||◌, List, [], ◌∷◌, Option, none, some,
}
use existential_identity_tes.Base.Text.{str_eq, elem}

pub data Role : Type 0 where
  assistant tool user system missing : Role
  other : String → Role

module _ (Json : Type 0) where
  pub data Arguments : Type 0 where
    object : Json → Arguments
    text : String → Arguments

  pub record Function : Type 0 where
    pub name : Option String
    pub arguments : Option Arguments

  pub record ToolCall : Type 0 where
    pub id : Option String
    pub kind : Option String
    pub function : Option Function
    pub name : Option String
    pub args : Option Arguments
    pub arguments : Option Arguments

  pub record Part : Type 0 where
    pub kind : Option String
    pub value : Json

  pub data Content : Type 0 where
    no_content : Content
    plain : String → Content
    parts : List Part → Content

  -- `kind` is the key "type".
  pub record Message : Type 0 where
    pub role : Role
    pub kind : Option String
    pub content : Content
    pub tool_calls : List ToolCall
    pub tool_call_id : Option String
    pub reasoning_content : Option String

  -- `json.dumps`, the empty dictionary `{}`, and the decimal digits of a number, of Python.
  pub record Library : Type 0 where
    pub dumps : Json → String
    pub empty : Json
    pub decimal : ℕ → String

unfoldable pub role_name : Role → String
role_name assistant = "assistant"
role_name tool = "tool"
role_name user = "user"
role_name system = "system"
role_name missing = "assistant"
role_name (other name) = name

abbrev pub is_assistant : Role → Bool
is_assistant assistant = true
is_assistant _ = false

abbrev pub is_tool : Role → Bool
is_tool tool = true
is_tool _ = false

-- `role in ("user", "system")`
abbrev pub is_turn : Role → Bool
is_turn user = true
is_turn system = true
is_turn _ = false

abbrev pub or_else {ℓ} : {A : Type ℓ} → Option A → A → A
or_else none a = a
or_else (some x) a = x

abbrev pub first_of {ℓ} : {A : Type ℓ} → Option A → Option A → Option A
first_of none o = o
first_of (some x) o = some x

abbrev pub is_some {ℓ} : {A : Type ℓ} → Option A → Bool
is_some none = false
is_some (some x) = true

abbrev pub is_empty {ℓ} : {A : Type ℓ} → List A → Bool
is_empty [] = true
is_empty (x ∷ xs) = false

abbrev pub kind_is : String → Option String → Bool
kind_is s none = false
kind_is s (some t) = str_eq t s

-- The rest, behind what is left of the message before it.
abbrev pub append_to {ℓ} : {A : Type ℓ} → List A → Option A → List A
append_to rest none = rest
append_to rest (some m) = m ∷ rest

-- Equality of two values of a key that may be missing.
unfoldable pub same_id : Option String → Option String → Bool
same_id none none = true
same_id (some s) (some t) = str_eq s t
same_id _ _ = false

-- `not tc_id or tc_id not in active_tc_ids`
unfoldable pub is_orphan : List String → Option String → Bool
is_orphan active id = str_eq (or_else id "") "" || not (elem (or_else id "") active)
