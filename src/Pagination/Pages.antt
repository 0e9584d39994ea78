-- ===== src/Pagination/Pages.antt =====
-- src/engine/pagination.rs: cursors round trip, and following the cursors gives the whole list.
use native.Mathlib.Decide.{dec_lt}
use rust_mcp_core.Common.{
  List, Option, String, [], arith, drop, drop-drop, err, false, if◌then◌else◌, length, length-drop,
  ltb, lt→ltb, min, none, ok, refl, some, suc, take, take-append-drop, take_of_length-le, zero, ℕ,
  ◌++◌, ◌+◌, ◌-◌, ◌<>◌, ◌<◌, ◌∙◌, ◌≡◌, ◌≤◌,
}
use rust_mcp_core.Errors.{Fallible}
use rust_mcp_core.Pagination.{
  Codec, decode_pagination_cursor, encode_pagination_cursor, invalid_cursor, page_from,
  paginate_items, saturating_add, start_of, version,
}
use rust_mcp_core.Text.Decimal.{parse-show, show, usize_max}
use rust_mcp_core.Text.Laws.{strip_prefix-append}

-- What the program relies on: decoding gives back the text that was encoded.
abbrev pub RoundTrips : Codec → Type 0
RoundTrips codec = (s : String) → codec.decode (codec.encode s) ≡ some s

ltb-false : (a b : ℕ) → b ≤ a → ltb a b ≡ false
ltb-false a b h = ground arith

module _ (codec : Codec) where
  abbrev prepend :
      {A : Type 0} → List A → Fallible (List A × Option String) → Fallible (List A × Option String)
  prepend page (err e) = err e
  prepend page (ok (more, last)) = ok (page ++ more, last)

  -- A client that follows the cursors, for as many requests as the fuel allows: the items that it
  -- receives and the cursor that is left, or the error that stopped it.
  unfoldable pub follow :
      {A : Type 0} → ℕ → List A → ℕ → Option String → Fallible (List A × Option String)
  follow zero xs size cursor = ok ([], cursor)
  follow (suc fuel) xs size cursor = elim (paginate_items codec xs cursor size) [
    | err e ↦ err e
    | ok (page, none) ↦ ok (page, none)
    | ok (page, some c) ↦ prepend page (follow fuel xs size (some c))
  ]

module _ (codec : Codec) (round_trips : RoundTrips codec) where
  -- Where Base64 decodes what it encodes, the cursor of a position, decoded, is that position, for every
  -- `usize`.
  pub decode-encode :
      (n : ℕ)
      → n ≤ usize_max
      → decode_pagination_cursor codec (encode_pagination_cursor codec n) ≡ ok n
  unfolding decode_pagination_cursor encode_pagination_cursor
  decode-encode n h =
      rw (round_trips (version <> show n), strip_prefix-append version (show n), parse-show n h)

  paginate-start :
      {A : Type 0} (xs : List A) (size n : ℕ) (cursor : Option String)
      → start_of codec cursor ≡ ok n
      → paginate_items codec xs cursor size ≡ page_from codec xs size n
  unfolding paginate_items
  paginate-start xs size n cursor h = rw h

  page-last :
      {A : Type 0} (xs : List A) (size n : ℕ)
      → length xs ≤ usize_max
      → n ≤ length xs
      → length xs ≤ n + size
      → page_from codec xs size n ≡ ok (drop n xs, none)
  unfolding page_from saturating_add
  page-last xs size n fits h last =
      let end : min (min (n + size) usize_max) (length xs) ≡ length xs = omega arith in
      let all : take (length xs - n) (drop n xs) ≡ drop n xs =
        take_of_length-le (length xs - n) (drop n xs) (omega (arith, length-drop n xs)) in
      rw (ltb-false (length xs) n h, end, ltb-false (length xs) (length xs) (omega arith), all)

  page-more :
      {A : Type 0} (xs : List A) (size n : ℕ)
      → length xs ≤ usize_max
      → n + size < length xs
      → page_from codec xs size n
        ≡ ok (take size (drop n xs), some (encode_pagination_cursor codec (n + size)))
  unfolding page_from saturating_add
  page-more xs size n fits more =
      let end : min (min (n + size) usize_max) (length xs) ≡ n + size = omega arith in
      let count : n + size - n ≡ size = omega arith in
      rw (ltb-false (length xs) n (omega arith), end, lt→ltb (n + size) (length xs) more, count)

  page-behind :
      {A : Type 0} (xs : List A) (size n : ℕ)
      → length xs < n
      → page_from codec xs size n ≡ err invalid_cursor
  unfolding page_from
  page-behind xs size n h = rw (lt→ltb (length xs) n h)

  follow-start :
      {A : Type 0} (fuel : ℕ) (xs : List A) (size n : ℕ) (cursor : Option String)
      → 1 ≤ size
      → length xs ≤ usize_max
      → n ≤ length xs
      → length xs < fuel + n
      → start_of codec cursor ≡ ok n
      → follow codec fuel xs size cursor ≡ ok (drop n xs, none)
  unfolding follow
  follow-start zero xs size n cursor p fits h f q = absurd (omega arith)
  follow-start (suc fuel) xs size n cursor p fits h f q = elim (dec_lt (n + size) (length xs)) [
    | no last ↦
        rw (paginate-start xs size n cursor q, page-last xs size n fits h (omega arith), follow)
    | yes more ↦
        let rest =
          follow-start fuel xs size (n + size) (some (encode_pagination_cursor codec (n + size))) p
            fits (omega arith) (omega arith)
            (unfold start_of in decode-encode (n + size) (omega arith)) in
        let joined : take size (drop n xs) ++ drop (n + size) xs ≡ drop n xs =
          rw (← drop-drop n size xs) (take-append-drop size (drop n xs)) in
        rw (paginate-start xs size n cursor q, page-more xs size n fits more, follow)
          (rw (rest, joined))
  ]

  -- Where Base64 decodes what it encodes, a client that starts without a cursor and follows the cursors
  -- it is given receives exactly the items of the list, each once and in order, and no cursor is left.
  -- This is for a page size of at least one and a list whose length a `usize` holds. As many requests
  -- as there are items, plus one, are enough.
  pub pages_cover_the_list :
      {A : Type 0} (xs : List A) (size : ℕ)
      → 1 ≤ size
      → length xs ≤ usize_max
      → follow codec (suc (length xs)) xs size none ≡ ok (xs, none)
  pages_cover_the_list xs size p fits =
      follow-start (suc (length xs)) xs size 0 none p fits (omega arith) (omega arith)
        (unfold start_of in refl)

  -- Where Base64 decodes what it encodes, the page at the cursor of a position, for a position and a list
  -- that a `usize` can count: behind the end of the list it is refused; else the page is
  -- the next `size` items, or what is left of the list, and there is a next cursor exactly if items
  -- are left over, and it is the position right after the page.
  pub page_at :
      {A : Type 0} (xs : List A) (size n : ℕ)
      → length xs ≤ usize_max
      → n ≤ usize_max
      → paginate_items codec xs (some (encode_pagination_cursor codec n)) size ≡ (
          if ltb (length xs) n
          then err invalid_cursor
          else ok (
            take size (drop n xs),
            if ltb (n + size) (length xs)
                then some (encode_pagination_cursor codec (n + size))
                else none,
          ))
  page_at xs size n fits h =
      paginate-start xs size n (some (encode_pagination_cursor codec n))
        (unfold start_of in decode-encode n h)
      ∙ elim (dec_lt (length xs) n) [
        | yes behind ↦ rw (lt→ltb (length xs) n behind) (page-behind xs size n behind)
        | no inside ↦ elim (dec_lt (n + size) (length xs)) [
          | yes more ↦
              rw (ltb-false (length xs) n (omega arith), lt→ltb (n + size) (length xs) more)
                (page-more xs size n fits more)
          | no last ↦
              rw
                (
                  ltb-false (length xs) n (omega arith),
                  ltb-false (n + size) (length xs) (omega arith),
                  take_of_length-le size (drop n xs) (omega (arith, length-drop n xs)),
                )
                (page-last xs size n fits (omega arith) (omega arith))
        ]
      ]
