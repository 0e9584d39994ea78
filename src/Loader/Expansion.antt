-- ===== src/Loader/Expansion.antt =====
-- src/config/loader.rs, `expand_env_vars`.
use Prim.Native.Char.{Char, code}
use Prim.Native.String.{[], ◌∷◌}
use text.Mathlib.TextLemmas.{nil-append, cons-append}
use rust_mcp_core.Common.{
  Bool, Result, String, ap, arith, err, false, nat_beq, none, ok, refl, some, sym, true, ◌&&◌, ◌<>◌,
  ◌>>=◌, ◌∙◌, ◌≡◌,
}
use rust_mcp_core.Errors.{Fallible, fail, invalid_request}
use rust_mcp_core.Text.{contains_char, strip_prefix}
use rust_mcp_core.Text.Laws.{append_assoc, append_char, append_empty_left, append_nil}
use rust_mcp_core.Upstream.{Host}

-- Where the loop stands: at a character of its own, at the brace after a dollar, or in a key.
pub data Scan : Type 0 where
  copying : Scan
  at_brace : Scan
  in_key : String → Scan

abbrev starts_brace : String → Bool
starts_brace [] = false
starts_brace (c ∷ s) = nat_beq (code c) b'{'

-- `ch == '$' && matches!(chars.peek(), Some('{'))`
abbrev opens : Char → String → Bool
opens c s = nat_beq (code c) b'$' && starts_brace s

abbrev pub onto : (String → String) → Fallible String → Fallible String
onto f (ok s) = ok (f s)
onto f (err e) = err e

abbrev or_null : Result String String → String
or_null (ok value) = value
or_null (err e) = "null"

module _ (host : Host) where
  abbrev env_value : String → Fallible String
  env_value [] = fail invalid_request "malformed env placeholder: empty env var name in `${env:}`"
  env_value (c ∷ s) = ok (or_null (host.var (c ∷ s)))

  -- what a closed placeholder stands for
  unfoldable pub placeholder : String → Fallible String
  unfolding strip_prefix
  placeholder key = elim (strip_prefix "env:" key) [
    | some env_key ↦ env_value env_key
    | none ↦ ok ("${" <> (key <> "}"))
  ]

  unfoldable pub expand_from : Scan → String → Fallible String
  unfolding placeholder
  expand_from (in_key key) [] =
      fail invalid_request
        ("malformed env placeholder: missing closing `}` for `${" <> (key <> "}`"))
  expand_from (in_key key) (c ∷ s) = elim (nat_beq (code c) b'}') [
    | true ↦ placeholder key >>= λ value. onto (◌<>◌ value) (expand_from copying s)
    | false ↦ expand_from (in_key (key <> (c ∷ []))) s
  ]
  expand_from at_brace [] = ok []
  expand_from at_brace (c ∷ s) = expand_from (in_key []) s
  expand_from copying [] = ok []
  expand_from copying (c ∷ s) = elim (opens c s) [
    | true ↦ expand_from at_brace s
    | false ↦ onto (◌∷◌ c) (expand_from copying s)
  ]

  unfoldable pub expand_env_vars : String → Fallible String
  unfolding expand_from
  expand_env_vars content = expand_from copying content

onto-onto :
    (f g : String → String) (r : Fallible String) → onto f (onto g r) ≡ onto (λ s. f (g s)) r
onto-onto f g (ok s) = refl
onto-onto f g (err e) = refl

onto_empty : (r : Fallible String) → onto (◌<>◌ "") r ≡ r
onto_empty (ok s) = ap ok (append_empty_left s)
onto_empty (err e) = refl

closing_brace : (s : String) → "" <> ("}" <> s) ≡ "}" ∷ s
closing_brace s =
    nil-append ("}" <> s) ∙ cons-append "}" "" s ∙ ap (λ (t : String). "}" ∷ t) (nil-append s)

opening_brace : (key s : String) → ("${" <> (key <> "}")) <> s ≡ "$" ∷ "{" ∷ (key <> ("}" <> s))
opening_brace key s =
    append_assoc "${" (key <> "}") s
    ∙ cons-append "$" "{" ((key <> "}") <> s)
    ∙ ap (λ (t : String). "$" ∷ t)
        (cons-append "{" "" ((key <> "}") <> s)
          ∙ ap (λ (t : String). "{" ∷ t) (nil-append ((key <> "}") <> s) ∙ append_assoc key "}" s))

onto_cons :
    (c : Char) (t : String) (r : Fallible String)
    → onto (◌∷◌ c) (onto (◌<>◌ t) r) ≡ onto (◌<>◌ (c ∷ t)) r
onto_cons c t (ok s) = ap ok (sym (cons-append c t s))
onto_cons c t (err e) = refl

module _ (host : Host) where
  -- A text without a dollar sign is copied.
  pub copy_plain :
      (t s : String)
      → contains_char b'$' t ≡ false
      → expand_from host copying (t <> s) ≡ onto (◌<>◌ t) (expand_from host copying s)
  unfolding expand_from contains_char
  copy_plain [] s h =
      ap (expand_from host copying) (nil-append s) ∙ sym (onto_empty (expand_from host copying s))
  copy_plain (c ∷ t) s h =
      let here : nat_beq (code c) b'$' ≡ false = ground arith in
      let there : contains_char b'$' t ≡ false = ground arith in
      let copied : expand_from host copying (c ∷ (t <> s))
          ≡ onto (◌∷◌ c) (expand_from host copying (t <> s)) =
        rw (here, expand_from) refl in
      ap (expand_from host copying) (cons-append c t s)
      ∙ copied
      ∙ ap (onto (◌∷◌ c)) (copy_plain t s there)
      ∙ onto_cons c t (expand_from host copying s)

  -- A key without a closing brace ends at the next one.
  pub scan_key :
      (key k s : String)
      → contains_char b'}' k ≡ false
      → expand_from host (in_key key) (k <> ("}" <> s))
        ≡ (placeholder host (key <> k) >>= λ value. onto (◌<>◌ value) (expand_from host copying s))
  unfolding expand_from contains_char
  scan_key key [] s h =
      ap (expand_from host (in_key key)) (closing_brace s)
      ∙ ap (λ k. placeholder host k >>= λ value. onto (◌<>◌ value) (expand_from host copying s))
          (sym (append_nil key))
  scan_key key (c ∷ k) s h =
      let here : nat_beq (code c) b'}' ≡ false = ground arith in
      let there : contains_char b'}' k ≡ false = ground arith in
      let kept : expand_from host (in_key key) (c ∷ (k <> ("}" <> s)))
          ≡ expand_from host (in_key (key <> (c ∷ []))) (k <> ("}" <> s)) =
        rw (here, expand_from) refl in
      ap (expand_from host (in_key key)) (cons-append c k ("}" <> s))
      ∙ kept
      ∙ scan_key (key <> (c ∷ [])) k s there
      ∙ ap (λ j. placeholder host j >>= λ value. onto (◌<>◌ value) (expand_from host copying s))
          (append_char key c k)

  -- A placeholder is read to its end.
  pub read_placeholder :
      (key s : String)
      → contains_char b'}' key ≡ false
      → expand_from host copying (("${" <> (key <> "}")) <> s)
        ≡ (placeholder host key >>= λ value. onto (◌<>◌ value) (expand_from host copying s))
  unfolding expand_from
  read_placeholder key s h =
      ap (expand_from host copying) (opening_brace key s)
      ∙ scan_key [] key s h
      ∙ ap (λ j. placeholder host j >>= λ value. onto (◌<>◌ value) (expand_from host copying s))
          (nil-append key)
