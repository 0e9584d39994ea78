-- ===== src/ToolResponse.antt =====
-- src/engine/tool_response.rs: the result of a tool, of a structured value or of content blocks.
--
-- The validator of JSON schemas is a library's: `schema_errors` compiles a schema and gives the texts
-- of its errors on a value, or the error of the compilation. The types of the content blocks are the
-- protocol crate's, with the fields that the code sets.
pub mod Blocks
mod Tests
use rust_mcp_core.Common.{
  List, Option, Result, String, [], and_then, err, false, if◌then◌else◌, leb, nat_eq, none, ok,
  ok_or, some, string_eq, unwrap_or, ℕ, ◌<>◌, ◌==◌, ◌>>=◌, ◌>>◌, ◌∷◌,
}
use rust_mcp_core.Errors.{Fallible, bad_params, invalid_request, mcp_error}
use rust_mcp_core.Json.{Object, Value, as_object, as_u64, delete, lookup, string}
use rust_mcp_core.Protocol.{CallToolResult, text_content}
use rust_mcp_core.Templating.{RenderContext, render_value}
use rust_mcp_core.Text.{join}
use rust_mcp_core.ValueHelpers.{
  Wire, remove_optional_annotations, remove_optional_icons, remove_optional_meta,
  remove_optional_string, remove_required_string, remove_required_text,
}

module _ (schema_errors : Value → Value → Result String (List String))
    (to_string : Value → String) where
  unfoldable pub validate_structured_output : Value → Value → Fallible Unit
  validate_structured_output structured schema = elim (schema_errors schema structured) [
    | err e ↦ err (mcp_error invalid_request e)
    | ok [] ↦ ok tt
    | ok (m ∷ ms) ↦
        err (mcp_error invalid_request ("output schema validation failed: " <> join "; " (m ∷ ms)))
  ]

  -- the text of the content beside a structured value
  unfoldable pub fallback_text : Option String → Value → String
  fallback_text (some fallback) (string s) = if fallback == "text" then s else to_string (string s)
  fallback_text fallback v = to_string v

  abbrev pub validated : Option Value → Value → Fallible Unit
  validated none structured = ok tt
  validated (some schema) structured = validate_structured_output structured schema

  unfoldable pub build_structured_result :
      Value → Option Value → Option String → Fallible CallToolResult
  unfolding validate_structured_output fallback_text
  build_structured_result structured schema fallback = do
    valid ← validated schema structured
    ok (record {
      content = text_content (fallback_text fallback structured) ∷ [];
      structured_content = some structured;
      is_error = some false;
      meta = none;
    })

module _ (w : Wire) where
  pub data ResourceContents : Type 0 where
    text_resource blob_resource :
        (uri : String) (mime_type : Option String) (contents : String) (meta : Option w.Meta)
        → ResourceContents

  pub record RawResource : Type 0 where
    pub uri : String
    pub name : String
    pub title : Option String
    pub description : Option String
    pub mime_type : Option String
    pub size : Option ℕ
    pub meta : Option w.Meta
    pub icons : Option w.Icons

  pub data RawContent : Type 0 where
    text : String → Option w.Meta → RawContent
    image : (data_text mime_type : String) → Option w.Meta → RawContent
    audio : (data_text mime_type : String) → RawContent
    resource_link : RawResource → RawContent
    resource : Option w.Meta → ResourceContents → RawContent

  -- `RawContent::optional_annotate`
  pub record Content : Type 0 where
    pub raw : RawContent
    pub annotations : Option w.Annotations

  abbrev pub u32_max : ℕ
  u32_max = 4294967295

  unfoldable pub checked_size : Option ℕ → Fallible (Option ℕ)
  checked_size none = ok none
  checked_size (some size) =
      if leb size u32_max
      then ok (some size)
      else err (bad_params "resource_link size must be <= 4294967295")

  unfoldable pub parse_tool_resource_link_content : Object → Fallible Content
  unfolding checked_size
  parse_tool_resource_link_content o = do
    (uri, o) ← remove_required_string ("uri" ∷ []) "resource_link content requires uri" o
    let (name, o) = remove_optional_string ("name" ∷ []) o
    let (title, o) = remove_optional_string ("title" ∷ []) o
    let (description, o) = remove_optional_string ("description" ∷ []) o
    let (mime_type, o) = remove_optional_string ("mime_type" ∷ "mimeType" ∷ []) o
    size ← checked_size (and_then (lookup "size" o) as_u64)
    (meta, o) ← remove_optional_meta w "_meta" "invalid resource_link _meta" (delete "size" o)
    (icons, o) ← remove_optional_icons w "icons" "invalid resource_link icons" o
    (annotations, o) ←
        remove_optional_annotations w "annotations" "invalid resource_link annotations" o
    ok (record {
      raw = resource_link (record {
        uri = uri;
        name = unwrap_or "resource" name;
        title = title;
        description = description;
        mime_type = mime_type;
        size = size;
        meta = meta;
        icons = icons;
      });
      annotations = annotations;
    })

  unfoldable pub resource_contents :
      (uri : String) (mime_type text blob : Option String)
      → Option w.Meta
      → Fallible ResourceContents
  resource_contents uri mime_type (some t) none meta = ok (text_resource uri mime_type t meta)
  resource_contents uri mime_type none (some b) meta = ok (blob_resource uri mime_type b meta)
  resource_contents uri mime_type none none meta =
      err (bad_params "resource content requires text or blob")
  resource_contents uri mime_type (some t) (some b) meta =
      err (bad_params "resource content cannot include both text and blob")

  unfoldable pub one_of : (top nested : Option w.Annotations) → Fallible (Option w.Annotations)
  one_of (some a) (some b) =
      err (bad_params "resource content annotations must be set either at top level or in resource")
  one_of (some a) none = ok (some a)
  one_of none nested = ok nested

  unfoldable pub parse_tool_resource_content : Object → Fallible Content
  unfolding resource_contents one_of
  parse_tool_resource_content o = do
    (top, o) ← remove_optional_annotations w "annotations" "invalid resource annotations" o
    (embedded, o) ← remove_optional_meta w "_meta" "invalid resource _meta" o
    v ← ok_or (bad_params "resource content requires resource") (lookup "resource" o)
    inner ← ok_or (bad_params "resource content requires resource object") (as_object v)
    (uri, inner) ← remove_required_string ("uri" ∷ []) "resource content requires uri" inner
    let (mime_type, inner) = remove_optional_string ("mime_type" ∷ "mimeType" ∷ []) inner
    (meta, inner) ← remove_optional_meta w "_meta" "invalid resource content _meta" inner
    (nested, inner) ←
        remove_optional_annotations w "annotations" "invalid resource annotations" inner
    let (text_value, inner) = remove_optional_string ("text" ∷ []) inner
    let (blob, inner) = remove_optional_string ("blob" ∷ []) inner
    contents ← resource_contents uri mime_type text_value blob meta
    annotations ← one_of top nested
    ok (record { raw = resource embedded contents; annotations = annotations })

  abbrev parse_text : Object → Fallible Content
  parse_text o = do
    (t, o) ← remove_required_text w ("text" ∷ []) "text content requires text" o
    (meta, o) ← remove_optional_meta w "_meta" "invalid text _meta" o
    (annotations, o) ← remove_optional_annotations w "annotations" "invalid text annotations" o
    ok (record { raw = text t meta; annotations = annotations })

  abbrev parse_image : Object → Fallible Content
  parse_image o = do
    (bytes, o) ← remove_required_string ("data" ∷ []) "image content requires data" o
    (mime_type, o) ←
        remove_required_string ("mime_type" ∷ "mimeType" ∷ []) "image content requires mime_type" o
    (meta, o) ← remove_optional_meta w "_meta" "invalid image _meta" o
    (annotations, o) ← remove_optional_annotations w "annotations" "invalid image annotations" o
    ok (record { raw = image bytes mime_type meta; annotations = annotations })

  abbrev parse_audio : Object → Fallible Content
  parse_audio o = do
    (bytes, o) ← remove_required_string ("data" ∷ []) "audio content requires data" o
    (mime_type, o) ←
        remove_required_string ("mime_type" ∷ "mimeType" ∷ []) "audio content requires mime_type" o
    (annotations, o) ← remove_optional_annotations w "annotations" "invalid audio annotations" o
    ok (record { raw = audio bytes mime_type; annotations = annotations })

  unfoldable pub parse_tool_content_block : Value → Fallible Content
  unfolding parse_tool_resource_link_content parse_tool_resource_content
  parse_tool_content_block v = do
    o ← ok_or (bad_params "tool response content item must be an object") (as_object v)
    (content_type, o) ←
        remove_required_string ("type" ∷ []) "tool response content item requires type" o
    if content_type == "text"
        then parse_text o
        else if content_type == "image"
        then parse_image o
        else if content_type == "audio"
        then parse_audio o
        else if content_type == "resource_link"
        then parse_tool_resource_link_content o
        else if content_type == "resource"
        then parse_tool_resource_content o
        else err (bad_params ("unsupported tool response content type: " <> content_type))

  module _ (from_str : String → Option Value) (ctx : RenderContext) where
    abbrev pub build_block : Value → Fallible Content
    build_block item = do v ← render_value w.to_string from_str ctx item; parse_tool_content_block v

    abbrev pub build_all : List Value → Fallible (List Content)
    build_all [] = ok []
    build_all (item ∷ rest) = do
      block ← build_block item
      blocks ← build_all rest
      ok (block ∷ blocks)

    unfoldable pub build_content_blocks : Option (List Value) → Fallible (List Content)
    unfolding parse_tool_content_block
    build_content_blocks none = ok []
    build_content_blocks (some content) = build_all content
