-- ===== src/ClientNotifications/Merged.antt =====
-- src/engine/client_notifications.rs: who is in the hub after a notification, and who is told.
use rust_mcp_core.Common.Map
use rust_mcp_core.ClientNotifications.{Hub, is_open, merge_peers, notify, take_pending, told}
use rust_mcp_core.Common.{
  Bool, Bool-cases, List-cases, Option, Option-cases, String, [], ap, eq_iff, false, false≢true,
  if◌then◌else◌, inl, inr, is_some, length, nat_eq, none, not, or_else, or_else-none, refl, some,
  string_eq, subst, sym, true, ℕ, ◌==◌, ◌∙◌, ◌∷◌, ◌≡◌, ◌≢◌,
}
use rust_mcp_core.Common.Map.{Map}

get-merge :
    (hub candidates : Hub) (key : String)
    → Map.get key (merge_peers hub candidates) ≡ or_else (Map.get key hub) (Map.get key candidates)
unfolding merge_peers Map.get
get-merge hub [] key = sym (or_else-none (Map.get key hub))
get-merge hub ((k, peer) ∷ candidates) key = elim (Bool-cases (Map.contains_key k hub)) [
  | inl there ↦ rw (there, merge_peers) (get-merge hub candidates key ∙ skipped there)
  | inr new ↦
      rw (new, merge_peers)
        (get-merge (Map.insert k peer hub) candidates key
          ∙ ap (λ o. or_else o (Map.get key candidates)) (Map.get-insert k key peer hub)
          ∙ pushed new)
]
  where
    skipped :
        Map.contains_key k hub ≡ true
        → or_else (Map.get key hub) (Map.get key candidates)
          ≡ or_else (Map.get key hub) (if k == key then some peer else Map.get key candidates)
    skipped there = elim (Bool-cases (k == key)) [
      | inr other ↦ rw other refl
      | inl same ↦ elim (Option-cases (Map.get key hub)) [
        | inr (x, found) ↦ rw found refl
        | inl missing ↦
            let at_k : Map.get k hub ≡ none =
              subst (λ j. Map.get j hub ≡ none) (sym ((eq_iff k key).0 same)) missing in
            absurd (false≢true (sym (Map.contains_key-get k hub ∙ ap is_some at_k) ∙ there))
      ]
    ]

    pushed :
        Map.contains_key k hub ≡ false
        → or_else (if k == key then some peer else Map.get key hub) (Map.get key candidates)
          ≡ or_else (Map.get key hub) (if k == key then some peer else Map.get key candidates)
    pushed new = elim (Bool-cases (k == key)) [
      | inr other ↦ rw other refl
      | inl same ↦ elim (Option-cases (Map.get key hub)) [
        | inl missing ↦ rw (same, missing) refl
        | inr (x, found) ↦
            let at_k : Map.get k hub ≡ some x =
              subst (λ j. Map.get j hub ≡ some x) (sym ((eq_iff k key).0 same)) found in
            absurd (false≢true (sym new ∙ (Map.contains_key-get k hub ∙ ap is_some at_k)))
      ]
    ]

merge-IsUnique :
    (hub candidates : Hub) → Map.IsUnique hub → Map.IsUnique (merge_peers hub candidates)
unfolding merge_peers
merge-IsUnique hub [] u = u
merge-IsUnique hub ((k, peer) ∷ candidates) u = elim (Bool-cases (Map.contains_key k hub)) [
  | inl there ↦ rw (there, merge_peers) (merge-IsUnique hub candidates u)
  | inr new ↦
      rw (new, merge_peers)
        (merge-IsUnique (Map.insert k peer hub) candidates (Map.IsUnique-insert k peer hub u))
]

module _ (closed_before closed_after notify_peer : ℕ → Bool) (meanwhile : Hub → Hub)
    (hub : Hub) where
  -- The peer of a key, if it is there and passes a test.
  abbrev pub passing : (ℕ → Bool) → String → Option ℕ → Option ℕ
  passing test key peer = Map.kept_by (λ k p. test p) key peer

  abbrev notified : Hub → Hub × ℕ
  notified pending = (
    merge_peers (Map.retain (is_open closed_after) (meanwhile [])) (told notify_peer pending),
    length (told notify_peer pending),
  )

  abbrev merged : Hub
  merged = (notified (Map.retain (is_open closed_before) hub)).0

  -- After a notification of a hub with an open peer, where no key is twice in the hub, nor in the one
  -- that the others leave while it is sent, a key has the peer that was observed for it while the
  -- notification was sent, if that is open by then; else the one that it had before, if that was open
  -- and could be told; and no key is there twice.
  pub peers_after_notify :
      Map.IsUnique hub
      → Map.IsUnique (meanwhile [])
      → (Map.retain (is_open closed_before) hub ≢ [])
      → ((key : String)
          → Map.get key (notify closed_before closed_after notify_peer meanwhile hub).0
            ≡ or_else (passing (λ p. not (closed_after p)) key (Map.get key (meanwhile []))) (
                passing notify_peer key
                  (passing (λ p. not (closed_before p)) key (Map.get key hub))))
        × Map.IsUnique (notify closed_before closed_after notify_peer meanwhile hub).0
  unfolding notify take_pending told
  peers_after_notify u v someone = elim (List-cases (Map.retain (is_open closed_before) hub)) [
    | inl nobody ↦ absurd (someone nobody)
    | inr (entry, more, pending) ↦
        let first = is_open closed_before in
        let later = is_open closed_after in
        let tell : String → ℕ → Bool = λ key peer. notify_peer peer in
        let goes : notify closed_before closed_after notify_peer meanwhile hub
            ≡ notified (Map.retain first hub) =
          ap (λ l. elim l [ [] ↦ ([], 0) | someone_else ∷ rest ↦ notified (Map.retain first hub) ])
            pending in
        rw goes (
          λ key.
              get-merge (Map.retain later (meanwhile [])) (Map.retain tell (Map.retain first hub))
                key
              ∙ ap (λ o. or_else o (Map.get key (told notify_peer (Map.retain first hub))))
                  (Map.get-retain later key (meanwhile []) v)
              ∙ ap (or_else (passing (λ p. not (closed_after p)) key (Map.get key (meanwhile []))))
                  (Map.get-retain tell key (Map.retain first hub) (Map.IsUnique-retain first hub u)
                    ∙ ap (Map.kept_by tell key) (Map.get-retain first key hub u)),
          merge-IsUnique (Map.retain later (meanwhile [])) (told notify_peer (Map.retain first hub))
              (Map.IsUnique-retain later (meanwhile []) v),
        )
  ]

  -- A notification that comes while another one is sent, and finds nobody observed in between, tells
  -- nobody, whatever peers there are.
  pub second_notification_is_lost :
      (second_closed second_notify_peer : ℕ → Bool) (others : Hub → Hub)
      → notify second_closed closed_after second_notify_peer others
          (take_pending closed_before hub).0
        ≡ ([], 0)
  unfolding notify take_pending Map.retain
  second_notification_is_lost second_closed second_notify_peer others = refl
