-- ===== src/LogSafety/Bounds.antt =====
-- src/log_safety.rs: how long a cut text is.
use Prim.Native.String.{[], ◌∷◌}
use native.Mathlib.Decide.{dec_lt}
use rust_mcp_core.Common.{
  Bool-cases, String, ap, arith, false, inl, inr, leb, le→leb, min, nat_eq, refl, string_eq, suc,
  true, zero, ℕ, ◌+◌, ◌-◌, ◌<>◌, ◌<◌, ◌==◌, ◌↔◌, ◌∙◌, ◌≡◌, ◌≤◌, ◌⊎◌,
}
use rust_mcp_core.LogSafety.{is_char_boundary, last_boundary, slice_to, truncate_string_for_log}
use rust_mcp_core.Text.{len, len_utf8}
use rust_mcp_core.Text.Decimal.{usize_max}
use rust_mcp_core.Text.Laws.{len-append}

len-slice_to : (n : ℕ) (s : String) → is_char_boundary n s ≡ true → len (slice_to n s) ≡ n
unfolding is_char_boundary slice_to len
len-slice_to zero s h = refl
len-slice_to (suc n) [] h = absurd (cc h)
len-slice_to (suc n) (c ∷ s) h = ground (arith, len-slice_to (suc n - len_utf8 c) s)

last_boundary-is_char_boundary :
    (n : ℕ) (s : String) → is_char_boundary (last_boundary n s) s ≡ true
unfolding last_boundary
last_boundary-is_char_boundary zero s = unfold is_char_boundary in refl
last_boundary-is_char_boundary (suc n) s = elim (Bool-cases (is_char_boundary (suc n) s)) [
  | inl here ↦ rw (here, last_boundary) here
  | inr other ↦ rw (other, last_boundary) (last_boundary-is_char_boundary n s)
]

last_boundary-le : (n : ℕ) (s : String) → last_boundary n s ≤ n
unfolding last_boundary
last_boundary-le zero s = omega arith
last_boundary-le (suc n) s = elim (Bool-cases (is_char_boundary (suc n) s)) [
  | inl here ↦ rw (here, last_boundary) (omega arith)
  | inr other ↦ rw (other, last_boundary) (omega (arith, last_boundary-le n s))
]

-- With a limit of at least one byte, the text for the log is at most the limit and the three bytes of
-- the dots, its note of the original length is exact, and it is marked as cut exactly if the original
-- is longer than the limit, for a limit that a `usize` holds. An uncut text is the original.
pub truncate_bounds :
    (input : String) (max_bytes : ℕ)
    → 1 ≤ max_bytes
    → max_bytes ≤ usize_max
    → (len (truncate_string_for_log input max_bytes).value ≤ max_bytes + 3)
      × ((truncate_string_for_log input max_bytes).original_bytes ≡ len input)
      × (((truncate_string_for_log input max_bytes).truncated ≡ true) ↔ (max_bytes < len input))
      × (((truncate_string_for_log input max_bytes).truncated ≡ true)
          ⊎ ((truncate_string_for_log input max_bytes).value ≡ input))
unfolding truncate_string_for_log len
truncate_bounds input max_bytes p fits =
    let limit : min max_bytes usize_max ≡ max_bytes = omega arith in
    let positive : (max_bytes == 0) ≡ false = ground arith in
    elim (dec_lt max_bytes (len input)) [
      | yes longer ↦
          let long : leb (len input) max_bytes ≡ false = ground arith in
          let cut : len (slice_to (last_boundary max_bytes input) input <> "...")
              ≡ last_boundary max_bytes input + 3 =
            len-append (slice_to (last_boundary max_bytes input) input) "..."
            ∙ ap (λ (n : ℕ). n + 3)
                (len-slice_to (last_boundary max_bytes input) input
                  (last_boundary-is_char_boundary max_bytes input)) in
          rw (positive, limit, long)
            (
              (omega (arith, cut, last_boundary-le max_bytes input)),
              refl,
              (λ h. longer, λ h. refl),
              inl refl,
            )
      | no short ↦
          rw (positive, limit, le→leb (len input) max_bytes (omega arith))
            ((omega arith), refl, (λ h. absurd (cc h), λ h. absurd (short h)), inr refl)
    ]
