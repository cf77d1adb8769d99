-- ===== src/Anthropic/Tools.antt =====
-- internal/providers/anthropic/transform.go: tools, their schemas, and the choice among them.
use costguard.Base.{
  String, Bool, true, false, List, [], ◌∷◌, Option, none, some, str_eq, if◌then◌else◌, Result, ok,
  err,
}
use costguard.Json.{
  Value, null, text, array, object, Items, nil, item, field_of, text_at, get_field, text_or_empty,
}
use costguard.Anthropic.Types.{ToolChoice, ToolFunction, AnthropicTool}
use costguard.Anthropic.Images.{
  TransformError, unsupported_choice, missing_function_name, unsupported_choice_format,
}

-- The choice, and whether the tools are left out.
unfoldable pub map_tool_choice : Value → Result TransformError (Option ToolChoice × Bool)
map_tool_choice null = ok (none, false)
map_tool_choice (text v) =
    if str_eq v "none"
    then ok (none, true)
    else if str_eq v "auto"
    then ok (some (record { kind = "auto"; name = "" }), false)
    else if str_eq v "required"
    then ok (some (record { kind = "any"; name = "" }), false)
    else err (unsupported_choice v)
map_tool_choice (object m) =
    let name = text_or_empty (get_field "name" (field_of "function" m)) in
    if str_eq name ""
    then err missing_function_name
    else ok (some (record { kind = "tool"; name = name }), false)
map_tool_choice _ = err unsupported_choice_format

unfoldable pub schema_type : Value → String
schema_type (object m) = let t = text_at "type" m in if str_eq t "" then "object" else t
schema_type _ = "object"

-- `m["properties"]`, nil where there is none.
unfoldable pub schema_properties : Value → Value
schema_properties (object m) = elim (field_of "properties" m) [ none ↦ null | some v ↦ v ]
schema_properties _ = null

abbrev pub texts_of : Items → List String
texts_of nil = []
texts_of (item (text s) vs) = s ∷ texts_of vs
texts_of (item _ vs) = texts_of vs

abbrev pub texts_in : Option Value → List String
texts_in (some (array vs)) = texts_of vs
texts_in _ = []

unfoldable pub schema_required : Value → List String
schema_required (object m) = texts_in (field_of "required" m)
schema_required _ = []

unfoldable pub anthropic_tool : ToolFunction → AnthropicTool
unfolding schema_type schema_properties schema_required
anthropic_tool t = record {
  name = t.name;
  description = t.description;
  input_schema = record {
    kind = schema_type t.parameters;
    properties = schema_properties t.parameters;
    required = schema_required t.parameters;
  };
}
