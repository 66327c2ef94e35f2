-- ===== src/Requests.antt =====
-- The messages that `_call_single` of tical_code/core/model_failover.py puts into a request: they are
-- copied and then cleaned in passes, some for every provider and some by the provider's name. A
-- message is a record of the keys that the passes read; a key that is missing and one whose value is
-- None or an empty list are the same where the code does not tell them apart. The values of `id`,
-- `name`, `arguments` and `function`, where they are present, are not None and of their usual type.
mod Conversation
mod Passes
pub mod Calls
pub mod Format
pub mod Identifiers
pub mod Paired
pub mod Stripped
pub mod Answered
mod Samples
unfoldable pub use Conversation.*
unfoldable pub use Passes.*
use Prim.Native.String.{◌++◌}
use mathlib.Core.Option
use existential_identity_tes.Base.{
  ℕ, ◌+◌, ltb, ◌==◌, if◌then◌else◌, String, Bool, true, false, not, ◌&&◌, ◌||◌, List, [], ◌∷◌, map,
  Option, none, some, select, any_of, all_of,
}
use existential_identity_tes.Base.Text.{str_eq, elem, lower_contains}

-- What the passes ask of a provider: its name and its endpoint.
unfoldable pub named : String → String → String → Bool
named needle name endpoint = lower_contains needle name || lower_contains needle endpoint

module _ {Json : Type 0} where
  -- The model that is asked: MiMo sees images with its model mimo-v2.5.
  unfoldable pub request_model : String → String → List (Message Json) → String
  unfolding has_image
  request_model name model messages =
      if any_of (λ m. has_image m.content) messages && lower_contains "mimo" name
      then "mimo-v2.5"
      else model

  unfoldable pub image_pass : String → List (Message Json) → List (Message Json)
  unfolding strip_images
  image_pass model ms = if str_eq model "mimo-v2.5" then ms else strip_images ms

  unfoldable pub orphan_pass : Bool → List (Message Json) → List (Message Json)
  unfolding strip_calls
  orphan_pass is_deepseek ms = if is_deepseek then strip_calls ms else ms

  unfoldable pub type_pass : Bool → List (Message Json) → List (Message Json)
  unfolding final_type
  type_pass is_deepseek ms = if is_deepseek then map final_type ms else ms

module _ {Json : Type 0} (py : Library Json) where
  -- The passes that a message goes through on its own, in the order of the code.
  unfoldable pub deepseek_pass : Bool → List (Message Json) → List (Message Json)
  unfolding add_type convert_calls enumerate_map
  deepseek_pass is_deepseek ms =
      if is_deepseek then enumerate_map (convert_calls py) 0 (map add_type ms) else ms

  unfoldable pub mimo_pass : Bool → List (Message Json) → List (Message Json)
  unfolding convert_calls enumerate_map
  mimo_pass is_mimo ms = if is_mimo then enumerate_map (convert_calls py) 0 ms else ms

  -- The messages up to the passes that look at their order.
  unfoldable pub formatted : String → String → String → List (Message Json) → List (Message Json)
  unfolding ensure_format enumerate_map strip_reasoning deepseek_pass mimo_pass image_pass
  formatted name endpoint model messages = image_pass (request_model name model messages) (
      enumerate_map (ensure_format py) 0 (
        mimo_pass (named "mimo" name endpoint)
          (deepseek_pass (named "deepseek" name endpoint) (map strip_reasoning messages))))

  -- The messages of the request to a provider with this name, endpoint and model.
  unfoldable pub clean_messages :
      String → String → String → List (Message Json) → List (Message Json)
  unfolding orphan_pass type_pass strip_tools
  clean_messages name endpoint model messages = type_pass (named "deepseek" name endpoint) (
      strip_tools []
        (orphan_pass (named "deepseek" name endpoint) (formatted name endpoint model messages)))
