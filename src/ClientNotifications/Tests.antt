-- ===== src/ClientNotifications/Tests.antt =====
-- A notification (src/engine/client_notifications.rs) of two peers, of which one cannot be told and a
-- third comes in the meantime.
use rust_mcp_core.Common.Map
use rust_mcp_core.ClientNotifications.{Hub, notify, observe_peer}
use rust_mcp_core.ClientNotifications.Merged.{passing, peers_after_notify}
use rust_mcp_core.Common.{
  Bool, String, [], ap, eq_iff, false, false≢true, is_empty_list, nat_eq, not, or_else, refl,
  string_eq, ℕ, ◌==◌, ◌∷◌, ◌≡◌,
}
use rust_mcp_core.Common.Map.{Map}

abbrev two_peers : Hub
two_peers = ("session:a", 1) ∷ ("session:b", 2) ∷ []

abbrev third_comes : Hub → Hub
unfolding observe_peer
third_comes = observe_peer (λ peer. false) "session:c" 3

abbrev is_first : ℕ → Bool
is_first peer = peer == 1

first_is_told :
    notify (λ peer. false) (λ peer. false) is_first third_comes two_peers
    ≡ (("session:c", 3) ∷ ("session:a", 1) ∷ [], 1)
unfolding notify third_comes Map.retain Map.contains_key Map.insert
first_is_told = refl

peers_after_notify_example :
    ((key : String)
      → Map.get key (notify (λ peer. false) (λ peer. false) is_first third_comes two_peers).0
        ≡ or_else
            (passing
              (λ peer. false)
              (λ peer. false)
              is_first
              third_comes
              two_peers
              (λ peer. not false)
              key
              (Map.get key (third_comes [])))
            (passing
              (λ peer. false)
              (λ peer. false)
              is_first
              third_comes
              two_peers
              is_first
              key
              (passing
                (λ peer. false)
                (λ peer. false)
                is_first
                third_comes
                two_peers
                (λ peer. not false)
                key
                (Map.get key two_peers))))
    × Map.IsUnique (notify (λ peer. false) (λ peer. false) is_first third_comes two_peers).0
unfolding third_comes Map.retain Map.insert
peers_after_notify_example =
    peers_after_notify (λ peer. false) (λ peer. false) is_first third_comes two_peers
      ((λ q. false≢true ((eq_iff "session:b" "session:a").1 q), tt), (tt, tt)) (tt, tt)
      (λ q. false≢true (ap is_empty_list q))
