-- ===== src/Auth/Claims.antt =====
-- src/auth/inbound/claims.rs: the claims, scopes and audiences that a token must have.
use rust_mcp_core.Common.{
  Bool, List, Option, String, [], all, any, false, nat_eq, some, string_eq, true, ◌&&◌, ◌==◌, ◌∷◌,
}
use rust_mcp_core.Common.Map.{Map}
use rust_mcp_core.Json.{Value, array, get, string, strings}
use rust_mcp_core.Text.{split_whitespace}

abbrev pub is_text : String → Option Value → Bool
is_text expected (some (string actual)) = actual == expected
is_text expected _ = false

unfoldable pub claims_match_required : Value → Map String String → Bool
claims_match_required claims [] = true
claims_match_required claims ((key, expected) ∷ required) =
    is_text expected (get key claims) && claims_match_required claims required

abbrev pub is_member : List String → String → Bool
is_member provided s = any (λ t. t == s) provided

-- scopes as a text with spaces, or as an array of texts
unfoldable pub provided_scopes : Option Value → List String
provided_scopes (some (string scopes)) = split_whitespace scopes
provided_scopes (some (array items)) = strings items
provided_scopes _ = []

unfoldable pub scopes_match_required : Value → List String → Bool
unfolding provided_scopes
scopes_match_required claims required =
    all (is_member (provided_scopes (get "scope" claims))) required

unfoldable pub provided_audiences : Option Value → List String
provided_audiences (some (string value)) = value ∷ []
provided_audiences (some (array items)) = strings items
provided_audiences _ = []

unfoldable pub audiences_match_required : Value → List String → Bool
unfolding provided_audiences
audiences_match_required claims required =
    all (is_member (provided_audiences (get "aud" claims))) required
