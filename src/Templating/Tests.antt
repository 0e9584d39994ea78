-- ===== src/Templating/Tests.antt =====
-- Runs of templates (src/engine/templating.rs).
use rust_mcp_core.Common.Map
use rust_mcp_core.Common.{Option, String, nat_eq, none, ok, refl, string_eq, true, ◌≡◌}
use rust_mcp_core.Json.{Object, Value, array, bool, cons, end, get, lookup, nil, object, string}
use rust_mcp_core.Templating.{RenderContext, render_string, render_value, value}
use rust_mcp_core.Templating.Literal.{render_string-literal}
use rust_mcp_core.Text.{
  contains, contains_char, ends_with_char, eq_ignore_ascii_case, init, is_empty, is_whitespace,
  join, split_char, starts_with, strip_prefix, trim, trim_end, trim_start,
}
use rust_mcp_core.Text.Decimal.{parse}

abbrev to_text : Value → String
to_text v = "?"

abbrev no_json : String → Option Value
no_json s = none

abbrev request : RenderContext
request = record {
  args = object (
      Object.field "user" (object (Object.field "name" (string "ada") end))
        (Object.field "ids" (array (cons (bool true) nil)) end));
  response = none;
}

render_string-literal_run :
    render_string to_text no_json request "hello {name}" ≡ ok (value (string "hello {name}"))
render_string-literal_run =
    render_string-literal to_text no_json request "hello {name}" (unfold contains_char in refl)

greeting :
    render_value to_text no_json request (string "hi ${user.name}, ${ids[0]|csv}${gone?}!")
    ≡ ok (string "hi ada, true!")
unfolding render_value starts_with trim split_char is_empty get lookup Map.get strip_prefix
    trim_start trim_end is_whitespace contains contains_char init ends_with_char join
    eq_ignore_ascii_case parse
greeting = refl
