-- ===== src/Pipeline/Actions/Config.antt =====
-- sovereignflow/application/actions/_config.py: reading the configuration of a step.
use sovereign_flow.Prelude.{
  ℕ, String, Bool, List, Option, none, some, ◌==◌, leb, if◌then◌else◌, lookup, keys, mem,
  difference, is_empty,
}
use sovereign_flow.Prelude.Int.{pos}
use sovereign_flow.Result.{Result, ok, err, bad_definition, guard, ◌>>=◌}
use sovereign_flow.Text.Strip.{strip}
use sovereign_flow.Value.{Value}

-- `mapping.get(key)`: a missing key reads as `None`.
unfoldable pub or_null : Option Value → Value
or_null none = Value.null
or_null (some v) = v

unfoldable pub config_get : List (String × Value) → String → Value
unfolding or_null
config_get config key = or_null (lookup key config)

unfoldable pub reject_unknown_config_keys : List (String × Value) → List String → Result (Unit {0})
reject_unknown_config_keys config allowed =
    guard (is_empty (difference (keys config) allowed)) (bad_definition "unsupported fields")

-- `isinstance(value, str) and value.strip()`, stripped.
unfoldable pub non_empty_string : Value → String → Result String
non_empty_string (Value.str s) message =
    if strip s == "" then err (bad_definition message) else ok (strip s)
non_empty_string other message = err (bad_definition message)

unfoldable pub required_config_string : List (String × Value) → String → Result String
unfolding non_empty_string
required_config_string config key =
    non_empty_string (config_get config key) "must be a non-empty string"

-- `_route_name`, over the `lower` of the library.
unfoldable pub route_name : (String → String) → Value → Result String
unfolding non_empty_string
route_name lower value = do
  name ← non_empty_string value "must be a non-empty string"
  ok (lower name)

-- A Python `bool` is no integer here.
unfoldable pub positive_integer : Value → Result ℕ
positive_integer (Value.int (pos n)) =
    if leb 1 n then ok n else err (bad_definition "must be a positive integer")
positive_integer other = err (bad_definition "must be a positive integer")

unfoldable pub positive_config_integer : List (String × Value) → String → Result ℕ
unfolding positive_integer
positive_config_integer config key = positive_integer (config_get config key)

unfoldable pub as_boolean : Value → Result Bool
as_boolean (Value.bool b) = ok b
as_boolean other = err (bad_definition "must be a boolean")

unfoldable pub boolean_or : Option Value → Bool → Result Bool
unfolding as_boolean
boolean_or none fallback = ok fallback
boolean_or (some v) fallback = as_boolean v

-- `_optional_boolean`: the default stands for a missing key only.
unfoldable pub optional_boolean : List (String × Value) → String → Bool → Result Bool
unfolding boolean_or
optional_boolean config key fallback = boolean_or (lookup key config) fallback

-- `route in step.routes`
abbrev pub declared : List (String × String) → String → Bool
declared routes route = mem route (keys routes)
