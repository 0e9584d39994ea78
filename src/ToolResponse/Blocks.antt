-- ===== src/ToolResponse/Blocks.antt =====
-- src/engine/tool_response.rs: what the built blocks are.
use rust_mcp_core.Common.{
  List, Option, Result-cases, String, [], inl, inr, ok, some, subst, ◌∷◌, ◌≡◌,
}
use rust_mcp_core.Json.{Value}
use rust_mcp_core.Templating.{RenderContext}
use rust_mcp_core.ToolResponse.{Content, build_all, build_block, build_content_blocks}
use rust_mcp_core.ValueHelpers.{Wire}

module _ (w : Wire) (from_str : String → Option Value) (ctx : RenderContext) where
  -- The blocks of a list of items, each with the item that it is made of.
  abbrev pub BuiltFrom : List Value → List (Content w) → Type 0
  BuiltFrom [] [] = Unit
  BuiltFrom (item ∷ rest) (b ∷ blocks) =
      (build_block w from_str ctx item ≡ ok b) × BuiltFrom rest blocks
  BuiltFrom content blocks = ⊥

  build_all-BuiltFrom :
      (content : List Value) (blocks : List (Content w))
      → build_all w from_str ctx content ≡ ok blocks
      → BuiltFrom content blocks
  build_all-BuiltFrom [] [] h = tt
  build_all-BuiltFrom [] (b ∷ blocks) h = absurd (cc h)
  build_all-BuiltFrom (item ∷ rest) blocks h =
      elim (Result-cases (build_block w from_str ctx item)) [
        | inr (e, wrong) ↦ absurd (cc (rw (wrong) at h))
        | inl (b, built) ↦ elim (Result-cases (build_all w from_str ctx rest)) [
          | inr (e, wrong) ↦ absurd (cc (rw (built, wrong) at h))
          | inl (bs, more) ↦
              let made : ok (b ∷ bs) ≡ ok blocks = rw (built, more) at h in
              let same : b ∷ bs ≡ blocks = cc made in
              subst (BuiltFrom (item ∷ rest)) same (built, build_all-BuiltFrom rest bs more)
        ]
      ]

  -- Where the content of a tool's response is built, no item is left out and none is added: the blocks
  -- are those of the items, one for each, in their order.
  pub build_content_blocks-BuiltFrom :
      (content : List Value) (blocks : List (Content w))
      → build_content_blocks w from_str ctx (some content) ≡ ok blocks
      → BuiltFrom content blocks
  unfolding build_content_blocks
  build_content_blocks-BuiltFrom content blocks h = build_all-BuiltFrom content blocks h
