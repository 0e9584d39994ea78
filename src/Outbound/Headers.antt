-- ===== src/Outbound/Headers.antt =====
-- src/http/outbound_pipeline.rs: which source a header of a request comes from.
use rust_mcp_core.Common.Map
use rust_mcp_core.Common.{
  Bool-cases, Option, String, [], ap, if◌then◌else◌, inl, inr, nat_eq, none, or_else, or_else-none,
  refl, some, string_eq, subst, sym, ◌==◌, ◌∙◌, ◌∷◌, ◌≡◌,
}
use rust_mcp_core.Common.Map.{Map}
use rust_mcp_core.Json.{Object, end, entries, lookup, put, string}
use rust_mcp_core.Json.Laws.{lookup-put}
use rust_mcp_core.Outbound.{
  PluginRequestAuth, bearer_of, build_base_header_map, build_request_headers, default_headers,
  included, set_header, set_headers, static_authorization,
}
use rust_mcp_core.Outbound.Texts.{
  IsText, as_string, as_string-inj, as_string-or_else, header_texts-some, set_header-IsText,
  set_headers-IsText,
}
use rust_mcp_core.Upstream.{OutboundHttpConfig, UpstreamConfig}

-- A value for one key only.
abbrev pub at_key : String → Option String → String → Option String
at_key key v k = if key == k then v else none

at_key-none : (key k : String) → at_key key none k ≡ none
at_key-none key k = elim (Bool-cases (key == k)) [
  | inl same ↦ rw same refl
  | inr other ↦ rw other refl
]

lookup-set_header :
    (key k : String) (v : Option String) (o : Object)
    → lookup k (set_header key v o) ≡ or_else (as_string (at_key key v k)) (lookup k o)
lookup-set_header key k none o = elim (Bool-cases (key == k)) [
  | inl same ↦ rw same refl
  | inr other ↦ rw other refl
]
lookup-set_header key k (some s) o = elim (Bool-cases (key == k)) [
  | inl same ↦ rw (lookup-put key k (string s) o, same) refl
  | inr other ↦ rw (lookup-put key k (string s) o, other) refl
]

lookup-set_headers :
    (k : String) (m : Map String String) (o : Object)
    → Map.IsUnique m
    → lookup k (set_headers m o) ≡ or_else (as_string (Map.get k m)) (lookup k o)
unfolding set_headers Map.get
lookup-set_headers k [] o u = refl
lookup-set_headers k ((j, s) ∷ m) o u =
    lookup-set_headers k m (put j (string s) o) (u.1) ∙ elim (Bool-cases (j == k)) [
      | inl same ↦
          let absent : Map.get k m ≡ none =
            subst (λ (i : String). Map.get i m ≡ none) ((string_eq.agrees j k).0 same)
              (Map.get-IsAbsent j m (u.0)) in
          rw (lookup-put j k (string s) o, same, absent) refl
      | inr other ↦ rw (lookup-put j k (string s) o, other) refl
    ]

abbrev pub outbound_headers : Option OutboundHttpConfig → Map String String
outbound_headers none = []
outbound_headers (some o) = o.headers

abbrev pub outbound_user_agent : Option OutboundHttpConfig → Option String
outbound_user_agent none = none
outbound_user_agent (some o) = o.user_agent

default_headers-IsText :
    (o : Option OutboundHttpConfig) → Map.Every IsText (entries (default_headers o))
unfolding default_headers
default_headers-IsText none = tt
default_headers-IsText (some o) =
    set_headers-IsText o.headers (set_header "User-Agent" o.user_agent end)
      (set_header-IsText "User-Agent" o.user_agent end tt)

lookup-default_headers :
    (k : String) (o : Option OutboundHttpConfig)
    → Map.IsUnique (outbound_headers o)
    → lookup k (default_headers o)
      ≡ as_string
          (or_else (Map.get k (outbound_headers o)) (at_key "User-Agent" (outbound_user_agent o) k))
unfolding default_headers lookup Map.get
lookup-default_headers k none u = ap as_string (sym (at_key-none "User-Agent" k))
lookup-default_headers k (some o) u =
    lookup-set_headers k o.headers (set_header "User-Agent" o.user_agent end) u
    ∙ rw
        (
          lookup-set_header "User-Agent" k o.user_agent end,
          as_string-or_else (Map.get k o.headers) (at_key "User-Agent" o.user_agent k),
          or_else-none (as_string (at_key "User-Agent" o.user_agent k)),
        )
        refl

module _ (encode : String → String) (outbound : Option OutboundHttpConfig)
    (upstream : UpstreamConfig) (auth : PluginRequestAuth) where
  -- Where a header comes from: the first of these sources that has it.
  abbrev pub header_source : String → Option String
  header_source k = or_else (at_key "Authorization" auth.explicit_authorization k) (
      or_else (at_key "Authorization" (bearer_of auth.oauth2_bearer) k) (
        or_else
          (at_key "Authorization"
            (included auth.include_upstream_auth (static_authorization encode upstream.auth)) k)
          (or_else (Map.get k upstream.headers) (
            or_else (at_key "User-Agent" upstream.user_agent k) (
              or_else (Map.get k (outbound_headers outbound))
                (at_key "User-Agent" (outbound_user_agent outbound) k))))))

  base-IsText : Map.Every IsText (entries (build_base_header_map encode outbound upstream auth))
  unfolding build_base_header_map
  base-IsText = set_header-IsText "Authorization" auth.explicit_authorization _ (
      set_header-IsText "Authorization" (bearer_of auth.oauth2_bearer) _ (
        set_header-IsText "Authorization" _ _ (
          set_headers-IsText upstream.headers _ (
            set_header-IsText "User-Agent" upstream.user_agent _
              (default_headers-IsText outbound)))))

  header_source_lem :
      (k : String)
      → as_string (header_source k)
        ≡ or_else (as_string (at_key "Authorization" auth.explicit_authorization k)) (
            or_else (as_string (at_key "Authorization" (bearer_of auth.oauth2_bearer) k)) (
              or_else
                (as_string (
                  at_key "Authorization"
                    (included auth.include_upstream_auth
                      (static_authorization encode upstream.auth))
                    k))
                (or_else (as_string (Map.get k upstream.headers)) (
                  or_else (as_string (at_key "User-Agent" upstream.user_agent k)) (
                    as_string (
                      or_else
                        (Map.get k (outbound_headers outbound))
                        (at_key "User-Agent" (outbound_user_agent outbound) k)))))))
  header_source_lem k = simp (as_string-or_else)

  base-lookup :
      (k : String)
      → Map.IsUnique upstream.headers
      → Map.IsUnique (outbound_headers outbound)
      → lookup k (build_base_header_map encode outbound upstream auth) ≡ as_string (header_source k)
  unfolding build_base_header_map
  base-lookup k u v =
      rw
        (
          lookup-set_header "Authorization" k auth.explicit_authorization _,
          lookup-set_header "Authorization" k (bearer_of auth.oauth2_bearer) _,
          lookup-set_header "Authorization" k
              (included auth.include_upstream_auth (static_authorization encode upstream.auth)) _,
          lookup-set_headers k upstream.headers _ u,
          lookup-set_header "User-Agent" k upstream.user_agent _,
          lookup-default_headers k outbound v,
          header_source_lem k,
        )
        refl

  -- Where no map of headers has a key twice, the value of a header, before the tool's own, is the one
  -- of the first source that has it: the explicit authorization, the OAuth2 token, the upstream's own
  -- credentials where they are asked for, the upstream's headers, its user agent, and the headers and
  -- the user agent of the defaults. Every one of them is a text.
  pub header_precedence :
      (k : String)
      → Map.IsUnique upstream.headers
      → Map.IsUnique (outbound_headers outbound)
      → (lookup k (build_base_header_map encode outbound upstream auth)
          ≡ as_string (header_source k))
        × Map.Every IsText (entries (build_base_header_map encode outbound upstream auth))
  header_precedence k u v = (base-lookup k u v, base-IsText)

  -- Where no map of headers has a key twice, the headers of a request of a plugin are built, without
  -- the panic of a header that is no text, and each has the value of the request, and where that has
  -- none the one of the first source that has it.
  pub request_headers_are_built :
      (request_headers : Map String String) (k : String)
      → Map.IsUnique request_headers
      → Map.IsUnique upstream.headers
      → Map.IsUnique (outbound_headers outbound)
      → (texts : Map String String) × (build_request_headers encode outbound upstream auth
            request_headers
          ≡ some texts)
        × (Map.get k texts ≡ or_else (Map.get k request_headers) (header_source k))
  unfolding build_request_headers lookup
  request_headers_are_built request_headers k r u v =
      let base = build_base_header_map encode outbound upstream auth in
      let (texts, read, same) =
        header_texts-some k (entries (set_headers request_headers base))
          (set_headers-IsText request_headers base base-IsText) in
      let value : as_string (Map.get k texts)
          ≡ as_string (or_else (Map.get k request_headers) (header_source k)) =
        same
        ∙ lookup-set_headers k request_headers base r
        ∙ ap (or_else (as_string (Map.get k request_headers))) (base-lookup k u v)
        ∙ sym (as_string-or_else (Map.get k request_headers) (header_source k)) in
      (texts, read, as_string-inj _ _ value)
