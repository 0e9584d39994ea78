-- ===== src/Templating/Literal.antt =====
-- src/engine/templating.rs: templates without placeholders.
use Prim.Native.Char.{Char, code}
use Prim.Native.String.{[], ◌∷◌}
use rust_mcp_core.Common.{
  Bool, Bool-cases, List, Option, String, ap, arith, false, inl, inr, nat_eq, none, ok, refl,
  string_eq, sym, ◌<>◌, ◌==◌, ◌∙◌, ◌≡◌,
}
use rust_mcp_core.Json.{Value, string}
use rust_mcp_core.Templating.{
  RenderContext, in_text, render_segments, render_string, segment_step, segments_from,
  single_placeholder, text, value,
}
use rust_mcp_core.Text.{
  cons_trimmed, contains_char, is_whitespace, starts_with, strip_prefix, trim, trim_end, trim_start,
}
use rust_mcp_core.Text.Laws.{append_char, append_empty_left, append_nil}

no_dollar-trim_start :
    (p : Char → Bool) (s : String)
    → contains_char b'$' s ≡ false
    → contains_char b'$' (trim_start p s) ≡ false
unfolding contains_char trim_start
no_dollar-trim_start p [] h = h
no_dollar-trim_start p (c ∷ s) h = ground (arith, no_dollar-trim_start p s)

segments-literal :
    (t s : String)
    → contains_char b'$' s ≡ false
    → segments_from (in_text t) s ≡ List.◌∷◌ (text (t <> s)) List.[]
unfolding contains_char segments_from segment_step
segments-literal t [] h = ap (λ (u : String). List.◌∷◌ (text u) List.[]) (sym (append_nil t))
segments-literal t (c ∷ s) h = elim (Bool-cases (code c == b'$')) [
  | inl dollar ↦ absurd (cc (rw dollar at h))
  | inr other ↦ rw other (
      segments-literal (t <> (c ∷ [])) s (rw other at h)
      ∙ ap (λ (u : String). List.◌∷◌ (text u) List.[]) (append_char t c s))
]

starts_with-literal : (s : String) → contains_char b'$' s ≡ false → starts_with "${" s ≡ false
unfolding contains_char starts_with strip_prefix
starts_with-literal [] h = refl
starts_with-literal (c ∷ s) h = ground arith

no_dollar-trim_end :
    (p : Char → Bool) (s : String)
    → contains_char b'$' s ≡ false
    → contains_char b'$' (trim_end p s) ≡ false
unfolding contains_char trim_end
no_dollar-trim_end p [] h = h
no_dollar-trim_end p (c ∷ s) h = elim (Bool-cases (code c == b'$')) [
  | inl dollar ↦ absurd (cc (rw dollar at h))
  | inr other ↦ step c (trim_end p s) other (no_dollar-trim_end p s (rw other at h))
]
  where
    step :
        (c : Char) (t : String)
        → (code c == b'$') ≡ false
        → contains_char b'$' t ≡ false
        → contains_char b'$' (cons_trimmed p c t) ≡ false
    step c [] other h = elim (Bool-cases (p c)) [
      | inl blank ↦ rw blank refl
      | inr kept ↦ rw (kept, other) refl
    ]
    step c (d ∷ t) other h = rw other h

module _ (to_string : Value → String) (from_str : String → Option Value) (ctx : RenderContext) where
  -- A text without a dollar sign is rendered as it is, whatever its other characters are.
  pub render_string-literal :
      (s : String)
      → contains_char b'$' s ≡ false
      → render_string to_string from_str ctx s ≡ ok (value (string s))
  unfolding render_string trim
  render_string-literal s h =
      let trimmed =
        starts_with-literal (trim s)
          (no_dollar-trim_end is_whitespace _ (no_dollar-trim_start is_whitespace s h)) in
      let plain : single_placeholder (trim s) ≡ none =
        unfold single_placeholder in rw trimmed refl in
      rw (plain, segments-literal "" s h, render_string, render_segments)
        (ap (λ (u : String). ok (value (string u))) (append_nil ("" <> s) ∙ append_empty_left s))
