-- ===== src/ValueHelpers/Tests.antt =====
-- Runs of the helpers on values (src/engine/value_helpers.rs).
use rust_mcp_core.Common.Map
use rust_mcp_core.Common.{nat_eq, refl, some, string_eq, true, ◌≡◌}
use rust_mcp_core.Common.Map.{Map}
use rust_mcp_core.Json.{Object, bool, end, entries, field, lookup, string}
use rust_mcp_core.ValueHelpers.{insert_all, rename_field}
use rust_mcp_core.ValueHelpers.Laws.{lookup-insert_all, lookup-rename_field}

abbrev icon : Object
icon = field "src" (string "a.png") (field "mime_type" (string "image/png") end)

lookup-rename_field_run :
    lookup "mimeType" (rename_field "mime_type" "mimeType" icon) ≡ some (string "image/png")
unfolding lookup Map.get
lookup-rename_field_run = lookup-rename_field "mime_type" "mimeType" "mimeType" icon refl

abbrev base : Object
base = field "timeout" (bool true) (field "mode" (string "slow") end)

abbrev overrides : Object
overrides = field "mode" (string "fast") end

distinct : Map.IsUnique (entries overrides)
distinct = (tt, tt)

mode_is_overridden : lookup "mode" (insert_all base overrides) ≡ some (string "fast")
unfolding lookup Map.get
mode_is_overridden = lookup-insert_all "mode" base overrides distinct
