-- ===== src/Tokens/Tests.antt =====
-- Calls for a token (src/auth/outbound/token_manager.rs), of an exchanger that counts them.
use rust_mcp_core.Common.Map
use rust_mcp_core.Common.{
  Result, String, [], arith, false, nat_eq, none, ok, or_else, refl, some, string_eq, ℕ, ◌+◌, ◌∷◌,
  ◌≡◌,
}
use rust_mcp_core.Common.Map.{Map}
use rust_mcp_core.TokenConfig.{cache_key_of, grant_eq, key_eq}
use rust_mcp_core.TokenConfig.Tests.{
  bare_host, key_of_config, oauth_config, oauth_key, resolved_config_example, resolves,
}
use rust_mcp_core.Tokens.{
  access_token, Cache, CachedOutboundToken, OutboundTokenExchanger, Readings, TokenExchangeResult,
  exchange_token, get_fresh, is_fresh, refresh_token_of, under_lock, usable,
}
use rust_mcp_core.Tokens.Cached.{Leaves, access_token-Leaves, refresh_token_is_there}
use rust_mcp_core.Tokens.Shared.{calls_share_an_exchange, locked_calls, same_for_all}

abbrev no_limit : ℕ → Result String ℕ
no_limit n = ok n

abbrev answer : ℕ → TokenExchangeResult
answer n = record { access_token = "token"; refresh_token = none; expires_in = some 90000000000 }

abbrev counting : OutboundTokenExchanger ℕ
counting = record {
  exchange_client_credentials = λ resolved n. (n + 1, ok (answer n));
  exchange_refresh_token = λ resolved token n. (n + 1, ok (answer n));
}

abbrev clock : Readings
clock = record { arrival = 0; locked = 1; exchanged = 2 }

abbrev entry : CachedOutboundToken
entry = record {
  access_token = "token";
  refresh_token = some "first";
  expires_at = some 90000000002;
}

abbrev cached : Cache
cached = (oauth_key, entry) ∷ []

access_token-Leaves_example :
    Leaves []
      (cache_key_of "api" oauth_config)
      (access_token no_limit counting bare_host "api" oauth_config false clock [] 0)
access_token-Leaves_example =
    access_token-Leaves no_limit counting bare_host "api" oauth_config false clock [] 0

entry_is_cached : Map.get oauth_key cached ≡ some entry
unfolding Map.get
entry_is_cached = refl

config_get : Map.get (cache_key_of "api" oauth_config) cached ≡ some entry
config_get = rw (key_of_config) entry_is_cached

refresh_token_is_there_run :
    (token : String) × (or_else
        (refresh_token_of (Map.get (cache_key_of "api" oauth_config) []))
        resolved_config_example.bootstrap_refresh_token
      ≡ some token)
    × (exchange_token counting [] resolved_config_example 0
        ≡ counting.exchange_refresh_token resolved_config_example token 0)
refresh_token_is_there_run =
    refresh_token_is_there no_limit counting bare_host "api" oauth_config resolved_config_example []
      0 resolves refl

calls_share_an_exchange_example :
    locked_calls no_limit counting resolved_config_example ((5, 6) ∷ (7, 8) ∷ []) cached 0
    ≡ (cached, 0, same_for_all ((5, 6) ∷ (7, 8) ∷ []) (ok "token"))
unfolding is_fresh under_lock usable get_fresh
calls_share_an_exchange_example =
    calls_share_an_exchange no_limit counting resolved_config_example 5 6 ((7, 8) ∷ []) cached 0
      cached 0 "token" entry 10 (rw (entry_is_cached, under_lock, usable, get_fresh) refl)
      entry_is_cached refl (omega arith, tt)
