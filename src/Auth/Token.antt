-- ===== src/Auth/Token.antt =====
-- src/auth/inbound/token.rs: bearer tokens, the claims of a JWT and the selection of its key.
use rust_mcp_core.Common.{
  Bool, List, Option, String, [], and_then, false, find, if◌then◌else◌, length, nat_eq, none, some,
  string_eq, ◌==◌, ◌∷◌,
}
use rust_mcp_core.Json.{Value}
use rust_mcp_core.Text.{is_empty, split_char, strip_prefix, trim}

abbrev pub trimmed : Option String → Option String
trimmed none = none
trimmed (some token) = if is_empty (trim token) then none else some (trim token)

-- `extract_bearer_token`, of the `Authorization` header's value, if it is there and is a text
unfoldable pub extract_bearer_token : Option String → Option String
extract_bearer_token header = trimmed (and_then header (strip_prefix "Bearer "))

unfoldable pub token_looks_like_jwt : String → Bool
token_looks_like_jwt token = length (split_char b'.' token) == 3

-- the middle one of three parts
unfoldable pub payload_part : List String → Option String
payload_part (a ∷ b ∷ c ∷ []) = some b
payload_part parts = none

-- `decode_jwt_claims`; `decode_payload` reads Base64 and then JSON
unfoldable pub decode_jwt_claims : (String → Option Value) → String → Option Value
unfolding payload_part
decode_jwt_claims decode_payload token =
    and_then (payload_part (split_char b'.' token)) decode_payload

-- A key of a key set: its identifier, and what the library keeps of it.
pub record Jwk (K : Type 0) : Type 0 where
  pub key_id : Option String
  pub material : K

abbrev pub has_id : {K : Type 0} → String → Jwk K → Bool
has_id kid jwk = elim jwk.key_id [ none ↦ false | some k ↦ k == kid ]

abbrev pub first : {A : Type 0} → List A → Option A
first [] = none
first (x ∷ xs) = some x

unfoldable pub select_jwk : {K : Type 0} → List (Jwk K) → Option String → Option (Jwk K)
select_jwk keys none = first keys
select_jwk keys (some kid) = find (has_id kid) keys

-- `parse_algorithms`: the names that the library knows
unfoldable pub parse_algorithms : {A : Type 0} → (String → Option A) → List String → List A
parse_algorithms parse [] = []
parse_algorithms parse (name ∷ names) = elim (parse name) [
  | none ↦ parse_algorithms parse names
  | some a ↦ a ∷ parse_algorithms parse names
]
