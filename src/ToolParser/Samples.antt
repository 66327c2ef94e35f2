-- ===== src/ToolParser/Samples.antt =====
-- A reply with a call between words; a brace stands in a string of it.
use existential_identity_tes.Base.{◌≡◌, [], ◌∷◌, refl, ◌++◌, some, length}
use mathlib.Core.List.{Mem}
use existential_identity_tes.Base.Text.{codes}
use existential_identity_tes.ToolParser.Candidates.{json_candidates-print}
use existential_identity_tes.ToolParser.{json_candidates, extract_json_object, after_quote}
use existential_identity_tes.ToolParser.Objects.{
  Body, end, one, escaped, done, plain, string, braces, print_object, extract_json_object-print,
}

-- {"a":{"\"}":1}}
abbrev sample : Body
sample = string (one 97 refl end) (
    plain 58 refl
      (braces (string (escaped 34 (one 125 refl end)) (plain 58 refl (plain 49 refl done))) done))

extract_json_object_test :
    extract_json_object (codes "Call {\"a\":{\"\\\"}\":1}} now {}") 5
    ≡ some (codes "{\"a\":{\"\\\"}\":1}}")
unfolding extract_json_object
extract_json_object_test = refl

extract_json_object-print_example :
    extract_json_object
      (codes "Call " ++ (print_object sample ++ codes " now {}"))
      (length (codes "Call "))
    ≡ some (print_object sample)
extract_json_object-print_example =
    extract_json_object-print (codes "Call ") sample (codes " now {}")

-- Both the object and the one inside it are read as JSON.
json_candidates_test :
    json_candidates (codes "Call {\"a\":{}} {") ≡ codes "{\"a\":{}}" ∷ codes "{}" ∷ []
unfolding json_candidates extract_json_object after_quote
json_candidates_test = refl

json_candidates-print_example :
    Mem
      (print_object sample)
      (json_candidates (codes "Call " ++ (print_object sample ++ codes " now {}")))
unfolding after_quote
json_candidates-print_example = json_candidates-print (codes "Call ") sample (codes " now {}") refl
