-- ===== src/HttpClient/Limit.antt =====
-- src/http/client.rs: the body of an answer is what came, and no longer than the limit.
use rust_mcp_core.Common.{
  Bool-cases, List, Option, Option-cases, Result, Result-cases, String, [], all, and_then, ap,
  arith, err, false, inl, inr, leb, length, length-append, ltb, none, ok, pair_is, refl, some,
  subst, sym, unwrap_or, ℕ, ◌++◌, ◌+◌, ◌∙◌, ◌∷◌, ◌≡◌, ◌≤◌,
}
use rust_mcp_core.Errors.{err≢ok}
use rust_mcp_core.HttpClient.{
  send, Bytes, Chunk, OutboundHttpRequest, OutboundHttpResponse, Reqwest, built_of,
  default_max_response_bytes, effective_max_response_bytes, has_both_bodies, read_chunks, received,
}
use rust_mcp_core.Text.{trim}

-- The chunks that came, in one, if none is an error.
unfoldable pub joined : List Chunk → Option Bytes
joined [] = some []
joined (err reason ∷ chunks) = none
joined (ok chunk ∷ chunks) = and_then (joined chunks) (λ rest. some (chunk ++ rest))

-- The limit is that of the request, or else a megabyte.
abbrev pub limit_of : OutboundHttpRequest → ℕ
limit_of request = unwrap_or default_max_response_bytes request.max_response_bytes

append_nil : (xs : Bytes) → xs ++ [] ≡ xs
append_nil [] = refl
append_nil (x ∷ xs) = ap (◌∷◌ x) (append_nil xs)

append_assoc : (xs ys zs : Bytes) → (xs ++ ys) ++ zs ≡ xs ++ (ys ++ zs)
append_assoc [] ys zs = refl
append_assoc (x ∷ xs) ys zs = ap (◌∷◌ x) (append_assoc xs ys zs)

module _ (usize_max limit : ℕ) where
  read_sound :
      (body : Bytes) (chunks : List Chunk) (got : Bytes)
      → length body ≤ limit
      → read_chunks usize_max limit body chunks ≡ ok got
      → (rest : Bytes) × (joined chunks ≡ some rest) × (got ≡ body ++ rest) × (length got ≤ limit)
  unfolding read_chunks joined
  read_sound body [] got fits run =
      let same : body ≡ got = cc run in
      ([], refl, sym same ∙ sym (append_nil body), subst (λ b. length b ≤ limit) same fits)
  read_sound body (err reason ∷ chunks) got fits run = absurd (err≢ok run)
  read_sound body (ok chunk ∷ chunks) got fits run =
      elim (Bool-cases (ltb usize_max (length body + length chunk))) [
        | inl over ↦ absurd (err≢ok (rw over at run))
        | inr held ↦ elim (Bool-cases (ltb limit (length body + length chunk))) [
          | inl over ↦ absurd (err≢ok (rw (held, over) at run))
          | inr below ↦
              let shorter = length-append body chunk in
              let (rest, joins, is, short) =
                read_sound (body ++ chunk) chunks got (ground (arith, shorter))
                  (rw (held, below) at run) in
              (chunk ++ rest, rw joins, is ∙ append_assoc body chunk rest, short)
        ]
      ]

  read_complete :
      (body rest : Bytes) (chunks : List Chunk)
      → limit ≤ usize_max
      → joined chunks ≡ some rest
      → length (body ++ rest) ≤ limit
      → read_chunks usize_max limit body chunks ≡ ok (body ++ rest)
  unfolding read_chunks joined
  read_complete body rest [] e joins fits =
      let none_left : [] ≡ rest = cc joins in
      ap ok (sym (append_nil body) ∙ ap (λ r. body ++ r) none_left)
  read_complete body rest (err reason ∷ chunks) e joins fits = absurd (grind arith)
  read_complete body rest (ok chunk ∷ chunks) e joins fits = elim (Option-cases (joined chunks)) [
    | inl nothing ↦ absurd (let h = rw nothing at joins in grind arith)
    | inr (more, those) ↦
        let whole : some (chunk ++ more) ≡ some rest = rw those at joins in
        let same : chunk ++ more ≡ rest = cc whole in
        let split = ap (λ r. body ++ r) (sym same) ∙ sym (append_assoc body chunk more) in
        let total = length-append (body ++ chunk) more in
        let first = length-append body chunk in
        let lengths = ap length split in
        let held : ltb usize_max (length body + length chunk) ≡ false = ground arith in
        let below : ltb limit (length body + length chunk) ≡ false = ground arith in
        rw (held, below, split)
          (read_complete (body ++ chunk) more chunks e those
            (subst (λ b. length b ≤ limit) split fits))
  ]

limit_is :
    (usize_max limit : ℕ) (request : OutboundHttpRequest)
    → effective_max_response_bytes usize_max request ≡ ok limit
    → limit ≡ limit_of request
unfolding effective_max_response_bytes
limit_is usize_max limit request run = elim (Option-cases request.max_response_bytes) [
  | inl unset ↦
      let h : ok default_max_response_bytes ≡ ok limit = rw unset at run in rw unset (sym (cc h))
  | inr (n, set) ↦ elim (Bool-cases (leb n usize_max)) [
    | inl small ↦ let h : ok n ≡ ok limit = rw (set, small) at run in rw set (sym (cc h))
    | inr large ↦ absurd (err≢ok (rw (set, large) at run))
  ]
]

module _ {S : Type 0} (usize_max : ℕ) (reqwest : Reqwest S) (request : OutboundHttpRequest)
    (s : S) where
  received_sound :
      (limit : ℕ) (r : Result String (ℕ × List Chunk)) (response : OutboundHttpResponse)
      → received usize_max reqwest limit r ≡ ok response
      → (chunks : List Chunk) × (r ≡ ok (response.status, chunks))
        × (joined chunks ≡ some response.body)
        × (length response.body ≤ limit)
  received_sound limit (err reason) response run = absurd (err≢ok run)
  received_sound limit (ok (status, chunks)) response run =
      elim (Result-cases (read_chunks usize_max limit [] chunks)) [
        | inr (e, refused) ↦ absurd (err≢ok (rw (refused, received) at run))
        | inl (body, got) ↦
            let made : ok (record { status = status; body = body }) ≡ ok response =
              rw (got, received) at run in
            let is : record { status = status; body = body } ≡ response = cc made in
            let (rest, joins, all, short) =
              read_sound usize_max limit [] chunks body (omega arith) got in
            (
              chunks,
              ap (λ r. ok (r.status, chunks)) is,
              joins ∙ ap some (sym all ∙ ap (λ r. r.body) is),
              subst (λ r. length r.body ≤ limit) is short,
            )
      ]

  -- If sending a request succeeds, then the client did send it, with the method that was read of its
  -- trimmed text, and none of the chunks that came is an error; the response has the status that came
  -- and the chunks in one as its body, which is no longer than the limit of the request.
  pub response_within_limit :
      (after : S) (response : OutboundHttpResponse)
      → send usize_max reqwest request s ≡ (after, ok response)
      → (method : reqwest.Method) × (chunks : List Chunk) × (reqwest.from_bytes
            (trim request.method)
          ≡ ok method)
        × (reqwest.send (built_of usize_max reqwest request method) s
            ≡ (after, ok (response.status, chunks)))
        × (joined chunks ≡ some response.body)
        × (length response.body ≤ limit_of request)
  unfolding send
  response_within_limit after response run =
      elim (Result-cases (effective_max_response_bytes usize_max request)) [
        | inr (e, refused) ↦ absurd (err≢ok (ap (λ r. r.1) (rw (refused, send) at run)))
        | inl (limit, is) ↦ elim (Bool-cases (has_both_bodies request)) [
          | inl both ↦ absurd (err≢ok (ap (λ r. r.1) (rw (is, both, send) at run)))
          | inr one ↦ elim (Result-cases (reqwest.from_bytes (trim request.method))) [
            | inr (e, unread) ↦ absurd (err≢ok (ap (λ r. r.1) (rw (is, one, unread, send) at run)))
            | inl (method, reads) ↦
                let sent = reqwest.send (built_of usize_max reqwest request method) s in
                let outcome : (sent.0, received usize_max reqwest limit (sent.1))
                    ≡ (after, ok response) =
                  rw (is, one, reads, send) at run in
                let (chunks, came, joins, short) =
                  received_sound limit (sent.1) response (ap (λ r. r.1) outcome) in
                (
                  method,
                  chunks,
                  reads,
                  pair_is (ap (λ r. r.0) outcome) came,
                  joins,
                  subst (λ n. length response.body ≤ n) (limit_is usize_max limit request is) short,
                )
          ]
        ]
      ]
