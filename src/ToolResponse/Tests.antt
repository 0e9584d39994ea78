-- ===== src/ToolResponse/Tests.antt =====
-- Runs of the tool responses (src/engine/tool_response.rs).
use rust_mcp_core.Common.Map
use rust_mcp_core.Common.{
  List, Option, String, [], nat_eq, none, ok, refl, some, string_eq, ◌∷◌, ◌≡◌,
}
use rust_mcp_core.Json.{Value, delete, end, field, lookup, object, put, string}
use rust_mcp_core.Templating.{RenderContext, render_value}
use rust_mcp_core.Text.{starts_with, trim}
use rust_mcp_core.ToolResponse.{Content, build_content_blocks, text}
use rust_mcp_core.ToolResponse.Blocks.{BuiltFrom, build_content_blocks-BuiltFrom}
use rust_mcp_core.ValueHelpers.{
  Wire, remove_optional_annotations, remove_optional_meta, remove_required_string,
  remove_required_text,
}

abbrev wire : Wire
wire = record {
  Meta = Value;
  Icons = Value;
  Annotations = Value;
  as_meta = λ v. ok v;
  as_icons = λ v. ok v;
  as_annotations = λ v. ok v;
  to_string = λ v. "?";
}

abbrev no_json : String → Option Value
no_json s = none

abbrev request : RenderContext
request = record { args = object end; response = none }

abbrev items : List Value
items = object (field "type" (string "text") (field "text" (string "hello") end)) ∷ []

abbrev blocks : List (Content wire)
blocks = record { raw = text "hello" none; annotations = none } ∷ []

built : build_content_blocks wire no_json request (some items) ≡ ok blocks
unfolding build_content_blocks lookup render_value starts_with trim remove_required_string Map.get
    put Map.insert remove_required_text delete Map.remove remove_optional_meta
    remove_optional_annotations
built = refl

build_content_blocks-BuiltFrom_run : BuiltFrom wire no_json request items blocks
build_content_blocks-BuiltFrom_run =
    build_content_blocks-BuiltFrom wire no_json request items blocks built
