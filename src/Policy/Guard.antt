-- ===== src/Policy/Guard.antt =====
-- src/http/policy.rs: which requests are let through, and what the others are answered.
use rust_mcp_core.Common.{
  Bool, Bool-cases, List, String, [], ap, arith, false, if◌then◌else◌, inl, inr, not, refl, true,
  ◌&&◌, ◌++◌, ◌||◌, ◌∷◌, ◌≡◌, ◌⊎◌,
}
use rust_mcp_core.Policy.{
  Http, Method, Request, Response, StreamableHttpRoutePolicy, bad_request, delete, get, is_get,
  is_required, method_not_allowed_response, other_method, post, remap_session_status,
  streamable_http_route_guard,
}
use rust_mcp_core.Text.{join}

-- The methods that a server has switched on.
abbrev pub allowed_methods : StreamableHttpRoutePolicy → List String
allowed_methods p =
    (if p.allow_delete_session then "DELETE" ∷ [] else [])
    ++ ((if p.enable_get_stream then "GET" ∷ [] else []) ++ ("POST" ∷ []))

abbrev pub is_enabled : StreamableHttpRoutePolicy → Method → Bool
is_enabled p get = p.enable_get_stream
is_enabled p delete = p.allow_delete_session
is_enabled p method = true

-- A resumption only where it is on, and a session where one is required; posts need neither.
abbrev pub has_headers : StreamableHttpRoutePolicy → Request → Method → Bool
has_headers p r get =
    (p.enable_sse_resumption || not r.has_last_event_id)
    && (r.has_session_id || not (is_required p.session_mode))
has_headers p r delete = r.has_session_id || not (is_required p.session_mode)
has_headers p r method = true

-- what is missing in a request that lacks a header, or has one too many
abbrev pub complaint : StreamableHttpRoutePolicy → Request → String
complaint p r =
    if is_get r.method && not p.enable_sse_resumption && r.has_last_event_id
    then "SSE resumption is disabled for this server"
    else "MCP-Session-Id header is required"

method_cases : (m : Method) → (m ≡ get) ⊎ ((m ≡ post) ⊎ ((m ≡ delete) ⊎ (m ≡ other_method)))
method_cases get = inl refl
method_cases post = inr (inl refl)
method_cases delete = inr (inr (inl refl))
method_cases other_method = inr (inr (inr refl))

allow_without_get :
    (delete_on : Bool)
    → (if delete_on then "DELETE, POST" else "POST")
      ≡ join ", " ((if delete_on then "DELETE" ∷ [] else []) ++ ("POST" ∷ []))
unfolding join
allow_without_get true = refl
allow_without_get false = refl

allow_without_delete :
    (get_on : Bool)
    → (if get_on then "GET, POST" else "POST")
      ≡ join ", " ((if get_on then "GET" ∷ [] else []) ++ ("POST" ∷ []))
unfolding join
allow_without_delete true = refl
allow_without_delete false = refl

-- A request reaches the handler exactly if its method is switched on and it has the headers that the
-- policy asks for, and the handler's answer then has its session status mapped. With a method that is
-- switched off it is answered with status 405 and the list of the methods that are switched on, and else
-- with status 400 and what is wrong with its headers.
pub guard_decides :
    (h : Http) (p : StreamableHttpRoutePolicy) (r : Request) (next_handler : Request → Response h)
    → streamable_http_route_guard h p r next_handler ≡ (
        if not (is_enabled p r.method)
        then method_not_allowed_response h (join ", " (allowed_methods p))
        else if has_headers p r r.method
        then remap_session_status h (next_handler r)
        else bad_request h (complaint p r))
unfolding streamable_http_route_guard
guard_decides h p r next_handler = elim (method_cases r.method) [
  | inl q ↦ elim (Bool-cases p.enable_get_stream) [
    | inr off ↦
        rw (q, off) (ap (method_not_allowed_response h) (allow_without_get p.allow_delete_session))
    | inl on ↦ rw (q, on) (ground arith)
  ]
  | inr (inl q) ↦ rw q (ground arith)
  | inr (inr (inl q)) ↦ elim (Bool-cases p.allow_delete_session) [
    | inr off ↦
        rw (q, off) (ap (method_not_allowed_response h) (allow_without_delete p.enable_get_stream))
    | inl on ↦ rw (q, on) (ground arith)
  ]
  | inr (inr (inr q)) ↦ rw q (ground arith)
]
