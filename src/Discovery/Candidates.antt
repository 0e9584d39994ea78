-- ===== src/Discovery/Candidates.antt =====
-- src/auth/inbound/provider.rs: where a provider's document is looked for.
use rust_mcp_core.Auth.Provider.{AuthProviderConfig}
use rust_mcp_core.Common.{
  All, Bool-cases, List, Option, String, [], ap, inl, inr, map, nat_eq, none, some, string_eq, true,
  ◌<>◌, ◌==◌, ◌∷◌, ◌≡◌,
}
use rust_mcp_core.Config.{}
use rust_mcp_core.Common.{is_some}
use rust_mcp_core.Discovery.Urls.{
  ParsedUrl, build_discovery_candidates_from_issuer, config_discovery_url, config_issuer, dedup,
  discovery_candidates, discovery_options, origin_of, path_of, well_known,
}
use rust_mcp_core.Text.{starts_with}
use rust_mcp_core.Text.Laws.{strip_prefix-append}

abbrev pub StartsAt : String → String → Type 0
StartsAt origin url = starts_with origin url ≡ true

map-StartsAt :
    (origin : String) (paths : List String) → All (StartsAt origin) (map (◌<>◌ origin) paths)
unfolding starts_with
map-StartsAt origin [] = tt
map-StartsAt origin (path ∷ paths) =
    (ap is_some (strip_prefix-append origin path), map-StartsAt origin paths)

dedup-All : (P : String → Type 0) (l : List String) → All P l → All P (dedup l)
unfolding dedup
dedup-All P [] h = tt
dedup-All P (x ∷ []) h = h
dedup-All P (x ∷ y ∷ l) h = elim (Bool-cases (x == y)) [
  | inl same ↦ rw (same, dedup) (dedup-All P (y ∷ l) (h.1))
  | inr other ↦ rw (other, dedup) (h.0, dedup-All P (y ∷ l) (h.1))
]

-- Without a configured URL of the document, every URL that is tried for it begins with the origin of
-- the issuer, as the parser gives it.
pub candidates_on_origin :
    (parse_url : String → Option ParsedUrl) (config : AuthProviderConfig) (issuer : String)
    (parsed : ParsedUrl)
    → config_discovery_url config ≡ none
    → config_issuer config ≡ some issuer
    → parse_url issuer ≡ some parsed
    → All (StartsAt (origin_of parsed)) (discovery_candidates parse_url config)
unfolding discovery_candidates build_discovery_candidates_from_issuer
candidates_on_origin parse_url config issuer parsed no_url has_issuer is_parsed =
    rw (no_url, has_issuer, is_parsed, discovery_candidates, build_discovery_candidates_from_issuer)
      (dedup-All (StartsAt (origin_of parsed)) _
        (map-StartsAt (origin_of parsed) (well_known (path_of parsed) (discovery_options config))))
