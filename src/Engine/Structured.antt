-- ===== src/Engine/Structured.antt =====
-- src/engine/orchestration/tool_dispatch.rs: the structured content of a result conforms to the schema
-- of its tool.
use rust_mcp_core.Common.{
  List, List-cases, Option, Option-cases, Result-cases, String, [], ap, arith, err, inl, inr, none,
  ok, refl, some, some_injective, subst, sym, ◌∙◌, ◌∷◌, ◌≡◌,
}
use rust_mcp_core.Config.{ToolConfig, content_response, structured_response}
use rust_mcp_core.Engine.{Engine, Services, tool_error_result_from_error}
use rust_mcp_core.Engine.HttpResult.{
  build_http_tool_result, fallback_str, result_of, structured_result, structured_value,
}
use rust_mcp_core.Engine.PluginTool.{checked_result, plugin_result, validated, with_content}
use rust_mcp_core.Errors.{Fallible, McpError, err≢ok}
use rust_mcp_core.HttpExecutor.{
  Execution, execution_cancelled, into_mcp_error, request_error, response_error, template_error,
  upstream_status,
}
use rust_mcp_core.Json.{Value}
use rust_mcp_core.Protocol.{CallToolResult, cancelled_tool_result, error_result, success_result}
use rust_mcp_core.ToolResponse.{
  Content, build_content_blocks, build_structured_result, validate_structured_output,
}
use rust_mcp_core.ValueHelpers.{PluginType}

module _ {S : Type 0} {A : PluginType → Type 0} (services : Services S A) (engine : Engine A)
    (tool_cfg : ToolConfig) where
  -- What a result has to be, by the schema of the tool: if both are there, the structured content has
  -- no errors by the schema.
  abbrev pub Conforms : CallToolResult → Type 0
  Conforms result =
      (schema v : Value)
      → tool_cfg.output_schema ≡ some schema
      → result.structured_content ≡ some v
      → services.schema_errors schema v ≡ ok []

  abbrev pub OkConforms : Fallible CallToolResult → Type 0
  OkConforms r = (result : CallToolResult) → r ≡ ok result → Conforms result

  unstructured-Conforms :
      (result : CallToolResult) → result.structured_content ≡ none → Conforms result
  unstructured-Conforms result without schema v set has =
      absurd (let h = sym without ∙ has in grind arith)

  pub tool_error-Conforms : (e : McpError) → Conforms (tool_error_result_from_error engine.config e)
  unfolding tool_error_result_from_error error_result
  tool_error-Conforms e = unstructured-Conforms (tool_error_result_from_error engine.config e) refl

  cancelled-Conforms : Conforms cancelled_tool_result
  unfolding cancelled_tool_result error_result
  cancelled-Conforms = unstructured-Conforms cancelled_tool_result refl

  output-valid :
      (v schema : Value) (u : Unit)
      → validate_structured_output services.schema_errors services.wire.to_string v schema ≡ ok u
      → services.schema_errors schema v ≡ ok []
  unfolding validate_structured_output
  output-valid v schema u run = elim (Result-cases (services.schema_errors schema v)) [
    | inr (e, unread) ↦ absurd (err≢ok (rw (unread, validate_structured_output) at run))
    | inl ([], none_found) ↦ none_found
    | inl (m ∷ ms, found) ↦ absurd (err≢ok (rw (found, validate_structured_output) at run))
  ]

  -- A result with a structured value that was validated conforms.
  validated-Conforms :
      (result : CallToolResult) (structured : Value) (u : Unit)
      → result.structured_content ≡ some structured
      → validated services engine tool_cfg.output_schema structured ≡ ok u
      → Conforms result
  validated-Conforms result structured u is passes schema v set has =
      let same : structured ≡ v = some_injective (sym is ∙ has) in
      output-valid v schema u (
        subst
          (λ x.
            validate_structured_output services.schema_errors services.wire.to_string x schema
            ≡ ok u)
          same (rw set at passes))

  with_content-structured :
      (result : CallToolResult) (v : Value)
      → (with_content services engine result v).structured_content ≡ result.structured_content
  with_content-structured result v = elim (List-cases result.content) [
    | inl bare ↦ rw (bare, with_content) refl
    | inr (c, cs, given) ↦ rw (given, with_content) refl
  ]

  checked-Conforms :
      (result : CallToolResult) → Conforms (checked_result services engine tool_cfg result)
  unfolding checked_result
  checked-Conforms result = elim (Option-cases result.structured_content) [
    | inl without ↦ rw (without, checked_result) (unstructured-Conforms result without)
    | inr (structured, has) ↦
        elim (Result-cases (validated services engine tool_cfg.output_schema structured)) [
          | inr (e, invalid) ↦ rw (has, invalid, checked_result) (tool_error-Conforms e)
          | inl (u, passes) ↦
              rw (has, passes, checked_result)
                (validated-Conforms (with_content services engine result structured) structured u
                  (with_content-structured result structured ∙ has) passes)
        ]
  ]

  pub plugin-Conforms :
      (r : Option (Fallible CallToolResult)) → Conforms (plugin_result services engine tool_cfg r)
  plugin-Conforms none = cancelled-Conforms
  plugin-Conforms (some (err e)) = tool_error-Conforms e
  plugin-Conforms (some (ok result)) = checked-Conforms result

  abbrev structured_in : Fallible CallToolResult → Option Value
  structured_in (err e) = none
  structured_in (ok result) = result.structured_content

  abbrev content_blocks : Value → Value → List Value → Fallible (List (Content services.wire))
  content_blocks args response items =
      build_content_blocks services.wire services.from_str
        (record { args = args; response = some response }) (some items)

  structured-Conforms :
      (structured : Value) (fallback : Option String)
      → OkConforms (structured_result services engine tool_cfg.output_schema structured fallback)
  unfolding build_structured_result
  structured-Conforms structured fallback result run =
      elim (Result-cases (validated services engine tool_cfg.output_schema structured)) [
        | inr (e, invalid) ↦ absurd (err≢ok (rw (invalid, build_structured_result) at run))
        | inl (u, passes) ↦
            let is : some structured ≡ result.structured_content =
              ap structured_in (rw (passes, build_structured_result) at run) in
            validated-Conforms result structured u (sym is) passes
      ]

  http-Conforms :
      (args response : Value)
      → OkConforms (build_http_tool_result services engine tool_cfg args response)
  unfolding build_http_tool_result success_result
  http-Conforms args response result run = elim (Option-cases tool_cfg.response) [
    | inl unset ↦
        structured-Conforms response none result (rw (unset, build_http_tool_result) at run)
    | inr (structured_response template fallback, set) ↦
        elim (Result-cases (structured_value services engine args response template)) [
          | inr (e, unread) ↦ absurd (err≢ok (rw (set, unread, build_http_tool_result) at run))
          | inl (structured, made) ↦
              structured-Conforms structured (fallback_str services engine fallback) result
                (rw (set, made, build_http_tool_result) at run)
        ]
    | inr (content_response items, set) ↦ elim (Result-cases (content_blocks args response items)) [
      | inr (e, unread) ↦ absurd (err≢ok (rw (set, unread, build_http_tool_result) at run))
      | inl (contents, made) ↦
          let is : none ≡ result.structured_content =
            ap structured_in (rw (set, made, build_http_tool_result) at run) in
          unstructured-Conforms result (sym is)
    ]
  ]

  pub ok-Conforms : (made : CallToolResult) → Conforms made → OkConforms (ok made)
  ok-Conforms made c result run = let same : made ≡ result = cc run in subst Conforms same c

  pub result_of-Conforms :
      (args : Value) (ends : Execution Value)
      → OkConforms (result_of services engine tool_cfg args ends)
  result_of-Conforms args (ok response) result run = http-Conforms args response result run
  result_of-Conforms args (err execution_cancelled) result run =
      ok-Conforms _ cancelled-Conforms result run
  result_of-Conforms args (err (template_error e)) result run =
      ok-Conforms _ (tool_error-Conforms (into_mcp_error (template_error e))) result run
  result_of-Conforms args (err (request_error e)) result run =
      ok-Conforms _ (tool_error-Conforms (into_mcp_error (request_error e))) result run
  result_of-Conforms args (err (response_error e)) result run =
      ok-Conforms _ (tool_error-Conforms (into_mcp_error (response_error e))) result run
  result_of-Conforms args (err (upstream_status status)) result run =
      ok-Conforms _ (tool_error-Conforms (into_mcp_error (upstream_status status))) result run
