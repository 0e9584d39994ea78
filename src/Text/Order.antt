-- ===== src/Text/Order.antt =====
-- Rust's order of `str`.
use Prim.Native.Char.{code}
use Prim.Native.String.{[], ◌∷◌}
use text.Mathlib.TextEquality.{Char-path}
use rust_mcp_core.Common.{
  Bool, Bool-cases, String, arith, false, false≢true, inl, inr, ltb, nat_beq, refl, sym, true, ◌&&◌,
  ◌||◌, ◌∙◌, ◌≡◌,
}

-- `s < t` (by bytes of UTF-8, which is by code points)
unfoldable pub before : String → String → Bool
before [] [] = false
before [] (d ∷ t) = true
before (c ∷ s) [] = false
before (c ∷ s) (d ∷ t) = ltb (code c) (code d) || (nat_beq (code c) (code d) && before s t)

pub before_irrefl : (s : String) → before s s ≡ false
unfolding before
before_irrefl [] = refl
before_irrefl (c ∷ s) = ground (arith, before_irrefl s)

pub before_trans : (s t u : String) → before s t ≡ true → before t u ≡ true → before s u ≡ true
unfolding before
before_trans [] [] u h k = ground arith
before_trans [] (d ∷ t) [] h k = ground arith
before_trans [] (d ∷ t) (e ∷ u) h k = refl
before_trans (c ∷ s) [] u h k = ground arith
before_trans (c ∷ s) (d ∷ t) [] h k = ground arith
before_trans (c ∷ s) (d ∷ t) (e ∷ u) h k = ground (arith, before_trans s t u)

pub before_asym : (s t : String) → before s t ≡ true → before t s ≡ false
before_asym s t h = elim (Bool-cases (before t s)) [
  | inl k ↦ absurd (false≢true (sym (before_irrefl s) ∙ before_trans s t s h k))
  | inr k ↦ k
]

pub before_total : (s t : String) → before s t ≡ false → before t s ≡ false → s ≡ t
unfolding before
before_total [] [] h k = refl
before_total [] (d ∷ t) h k = ground arith
before_total (c ∷ s) [] h k = ground arith
before_total (c ∷ s) (d ∷ t) h k =
    let same : code c ≡ code d = ground arith in
    let rest : s ≡ t = before_total s t (ground arith) (ground arith) in
    λ i. Char-path c d same i ∷ rest i
