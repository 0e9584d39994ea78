-- ===== src/ClientNotifications.antt =====
-- src/engine/client_notifications.rs: the peers that are told that a list has changed.
--
-- The hub has a peer, a number, for each key, in the order of their first request. Whether a transport
-- is closed, and whether a peer can be told, are parameters. A notification takes the peers out of the
-- hub, sends, and then merges them back: `meanwhile` is what others do to the hub while it sends. The
-- key of a peer is made in TaskRequests.
pub mod Merged
mod Tests
use rust_mcp_core.Common.Map
use rust_mcp_core.Common.{Bool, String, [], if◌then◌else◌, length, nat_eq, not, string_eq, ℕ, ◌∷◌}
use rust_mcp_core.Common.Map.{Map}
use rust_mcp_core.Json.{entries}

abbrev pub Hub : Type 0
Hub = Map String ℕ

-- `retain(|entry| !entry.peer.is_transport_closed())`
abbrev pub is_open : (is_transport_closed : ℕ → Bool) → String → ℕ → Bool
is_open is_transport_closed key peer = not (is_transport_closed peer)

unfoldable pub observe_peer : (is_transport_closed : ℕ → Bool) (key : String) (peer : ℕ) → Hub → Hub
observe_peer is_transport_closed key peer hub =
    Map.insert key peer (Map.retain (is_open is_transport_closed) hub)

-- the candidates whose keys are not there are pushed
unfoldable pub merge_peers : Hub → (candidates : Hub) → Hub
merge_peers hub [] = hub
merge_peers hub ((key, peer) ∷ candidates) =
    if Map.contains_key key hub
    then merge_peers hub candidates
    else merge_peers (Map.insert key peer hub) candidates

-- the first part of `notify`: what is left in the hub, and the peers to be told
unfoldable pub take_pending : (is_transport_closed : ℕ → Bool) → Hub → Hub × Hub
take_pending is_transport_closed hub = ([], Map.retain (is_open is_transport_closed) hub)

-- the peers that could be told
unfoldable pub told : (notify_peer : ℕ → Bool) → (pending : Hub) → Hub
told notify_peer pending = Map.retain (λ key peer. notify_peer peer) pending

-- `notify`: the hub and the number of the peers that were told. The second test is that after the
-- sending.
unfoldable pub notify :
    (closed_before closed_after notify_peer : ℕ → Bool) → (meanwhile : Hub → Hub) → Hub → Hub × ℕ
unfolding take_pending told merge_peers
notify closed_before closed_after notify_peer meanwhile hub =
    let taken = take_pending closed_before hub in
    elim (taken.1) [
      | [] ↦ ([], 0)
      | entry ∷ entries ↦
          let keep = told notify_peer (taken.1) in
          (merge_peers (Map.retain (is_open closed_after) (meanwhile (taken.0))) keep, length keep)
    ]
