-- ===== src/Loader/Pieces.antt =====
-- src/config/loader.rs, `expand_env_vars`: the expansion of a text that is made of pieces.
use rust_mcp_core.Common.{All, List, String, [], ap, false, ok, refl, ◌<>◌, ◌>>=◌, ◌∙◌, ◌∷◌, ◌≡◌}
use rust_mcp_core.Errors.{Fallible}
use rust_mcp_core.Loader.Expansion.{
  copy_plain, expand_env_vars, expand_from, onto, placeholder, read_placeholder,
}
use rust_mcp_core.Text.{contains_char}
use rust_mcp_core.Upstream.{Host}

-- A text without a dollar sign, or a placeholder with its key.
pub data Piece : Type 0 where
  plain : String → Piece
  keyed : String → Piece

abbrev pub IsPiece : Piece → Type 0
IsPiece (plain text) = contains_char b'$' text ≡ false
IsPiece (keyed key) = contains_char b'}' key ≡ false

abbrev pub piece_text : Piece → String
piece_text (plain text) = text
piece_text (keyed key) = "${" <> (key <> "}")

unfoldable pub source_of : List Piece → String
source_of [] = ""
source_of (p ∷ ps) = piece_text p <> source_of ps

module _ (host : Host) where
  abbrev pub piece_value : Piece → Fallible String
  unfolding placeholder
  piece_value (plain text) = ok text
  piece_value (keyed key) = placeholder host key

  -- The pieces' values, one after the other, or the first error.
  unfoldable pub value_of : List Piece → Fallible String
  value_of [] = ok ""
  value_of (p ∷ ps) = piece_value p >>= λ value. onto (◌<>◌ value) (value_of ps)

  -- A text that is made of pieces, plain ones without a dollar sign and placeholders without a closing
  -- brace in their keys, expands to the values of the pieces in their order, or fails with the first
  -- error of a placeholder.
  pub expansion_of_pieces :
      (pieces : List Piece)
      → All IsPiece pieces
      → expand_env_vars host (source_of pieces) ≡ value_of pieces
  unfolding expand_env_vars source_of value_of expand_from
  expansion_of_pieces [] h = refl
  expansion_of_pieces (plain text ∷ pieces) h =
      copy_plain host text (source_of pieces) (h.0)
      ∙ ap (onto (◌<>◌ text)) (expansion_of_pieces pieces (h.1))
  expansion_of_pieces (keyed key ∷ pieces) h =
      read_placeholder host key (source_of pieces) (h.0)
      ∙ ap (λ rest. placeholder host key >>= λ value. onto (◌<>◌ value) rest)
          (expansion_of_pieces pieces (h.1))
