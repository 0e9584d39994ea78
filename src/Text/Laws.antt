-- ===== src/Text/Laws.antt =====
-- Laws of the operations of `str` that the components share.
use Prim.Native.Char.{Char}
use Prim.Native.String.{[], ◌∷◌}
use text.Mathlib.TextLemmas.{nil-append, cons-append}
use rust_mcp_core.Common.{String, ap, arith, refl, some, sym, ◌+◌, ◌<>◌, ◌∙◌, ◌≡◌, ◌≤◌}
use rust_mcp_core.Text.{len, len_utf8, strip_prefix}

pub strip_prefix-append : (p s : String) → strip_prefix p (p <> s) ≡ some s
unfolding strip_prefix
strip_prefix-append [] s = rw nil-append
strip_prefix-append (c ∷ p) s = rw cons-append (ground (arith, strip_prefix-append p s))

pub len-append : (s t : String) → len (s <> t) ≡ len s + len t
unfolding len
len-append [] t = rw nil-append (omega arith)
len-append (c ∷ s) t = rw cons-append (omega (arith, len-append s t))

pub len_utf8_bounds : (c : Char) → (1 ≤ len_utf8 c) × (len_utf8 c ≤ 4)
unfolding len_utf8
len_utf8_bounds c = ground arith

pub append_nil : (t : String) → t <> "" ≡ t
append_nil [] = nil-append ""
append_nil (c ∷ t) = rw (cons-append, append_nil t) refl

pub append_char : (t : String) (c : Char) (s : String) → (t <> (c ∷ [])) <> s ≡ t <> (c ∷ s)
append_char [] c s =
    ap (λ (u : String). u <> s) (nil-append (c ∷ []))
    ∙ cons-append c "" s
    ∙ ap (λ (u : String). c ∷ u) (nil-append s)
    ∙ sym (nil-append (c ∷ s))
append_char (d ∷ t) c s =
    ap (λ (u : String). u <> s) (cons-append d t (c ∷ []))
    ∙ cons-append d (t <> (c ∷ [])) s
    ∙ ap (λ (u : String). d ∷ u) (append_char t c s)
    ∙ sym (cons-append d t (c ∷ s))

pub append_empty_left : (s : String) → "" <> s ≡ s
append_empty_left s = nil-append s

pub append_assoc : (s t u : String) → (s <> t) <> u ≡ s <> (t <> u)
append_assoc [] t u = ap (λ (v : String). v <> u) (nil-append t) ∙ sym (nil-append (t <> u))
append_assoc (c ∷ s) t u =
    ap (λ (v : String). v <> u) (cons-append c s t)
    ∙ cons-append c (s <> t) u
    ∙ ap (λ (v : String). c ∷ v) (append_assoc s t u)
    ∙ sym (cons-append c s (t <> u))
