-- ===== src/Text/Decimal.antt =====
-- `usize` in decimal: `to_string` and `parse::<usize>` on a 64-bit target.
use Prim.Native.Char.{Char, code}
use Prim.Native.String.{[], ◌∷◌}
use rust_mcp_core.Common.{
  Bool-cases, Option, String, ap, arith, if◌then◌else◌, inl, inr, leb, le→leb, ltb, nat_eq, none,
  refl, some, string_eq, suc, zero, ℕ, ◌%◌, ◌&&◌, ◌*◌, ◌+◌, ◌-◌, ◌/◌, ◌<◌, ◌==◌, ◌^◌, ◌∙◌, ◌≡◌, ◌≤◌,
}

abbrev pub usize_max : ℕ
usize_max = 2 ^ 64 - 1

-- the character of a digit
digit : ℕ → Char
digit zero = "0"
digit (suc zero) = "1"
digit (suc (suc zero)) = "2"
digit (suc (suc (suc zero))) = "3"
digit (suc (suc (suc (suc zero)))) = "4"
digit (suc (suc (suc (suc (suc zero))))) = "5"
digit (suc (suc (suc (suc (suc (suc zero)))))) = "6"
digit (suc (suc (suc (suc (suc (suc (suc zero))))))) = "7"
digit (suc (suc (suc (suc (suc (suc (suc (suc zero)))))))) = "8"
digit (suc (suc (suc (suc (suc (suc (suc (suc n)))))))) = "9"

-- `to_string`: the digits of `n`, in front of `rest`. A number has at most as many digits as its
-- value plus one, which is the fuel of `show`.
show_from : ℕ → ℕ → String → String
unfolding digit
show_from zero n rest = rest
show_from (suc fuel) n rest =
    let more = show_from fuel (n / 10) (digit (n % 10) ∷ rest) in
    if ltb n 10 then digit (n % 10) ∷ rest else more

unfoldable pub show : ℕ → String
unfolding show_from
show n = show_from (suc n) n []

-- The loop of `parse`, with the checks for a digit and for overflow.
unfoldable pub parse_from : ℕ → String → Option ℕ
parse_from n [] = some n
parse_from n (ch ∷ s) =
    let c = code ch in
    let value = n * 10 + (c - 48) in
    let rest = parse_from value s in
    if leb 48 c && leb c 57 && leb value usize_max then rest else none

-- A leading `+` is allowed before a digit, an empty text is not.
unfoldable pub parse : String → Option ℕ
unfolding parse_from
parse [] = none
parse (ch ∷ []) = parse_from 0 (ch ∷ [])
parse (ch ∷ d ∷ s) = if code ch == b'+' then parse_from 0 (d ∷ s) else parse_from 0 (ch ∷ d ∷ s)

parse_from-end : (n : ℕ) → parse_from n [] ≡ some n
unfolding parse_from
parse_from-end n = refl

code-digit : (n : ℕ) → n < 10 → code (digit n) ≡ 48 + n
unfolding digit
code-digit zero h = refl
code-digit (suc zero) h = refl
code-digit (suc (suc zero)) h = refl
code-digit (suc (suc (suc zero))) h = refl
code-digit (suc (suc (suc (suc zero)))) h = refl
code-digit (suc (suc (suc (suc (suc zero))))) h = refl
code-digit (suc (suc (suc (suc (suc (suc zero)))))) h = refl
code-digit (suc (suc (suc (suc (suc (suc (suc zero))))))) h = refl
code-digit (suc (suc (suc (suc (suc (suc (suc (suc zero)))))))) h = refl
code-digit (suc (suc (suc (suc (suc (suc (suc (suc (suc zero))))))))) h = refl
code-digit (suc (suc (suc (suc (suc (suc (suc (suc (suc (suc n)))))))))) h = absurd (omega arith)

add-sub : (d : ℕ) → 48 + d - 48 ≡ d
add-sub d = omega arith

parse_from-digit :
    (n d : ℕ) (s : String)
    → d < 10
    → n * 10 + d ≤ usize_max
    → parse_from n (digit d ∷ s) ≡ parse_from (n * 10 + d) s
unfolding parse_from
parse_from-digit n d s h k = rw (
  code-digit d h,
  add-sub d,
  le→leb 48 (48 + d) (omega arith),
  le→leb (48 + d) 57 (omega arith),
  le→leb (n * 10 + d) usize_max k,
)

parse_from-show_from :
    (fuel n : ℕ) (rest : String)
    → n < fuel
    → n ≤ usize_max
    → parse_from 0 (show_from fuel n rest) ≡ parse_from n rest
unfolding show_from
parse_from-show_from zero n rest h k = absurd (omega arith)
parse_from-show_from (suc fuel) n rest h k = elim (Bool-cases (ltb n 10)) [
  | inl small ↦ rw small (
      parse_from-digit 0 (n % 10) rest (omega arith) (omega arith)
      ∙ ap (λ m. parse_from m rest) (ground arith))
  | inr large ↦ rw large (
      parse_from-show_from fuel (n / 10) (digit (n % 10) ∷ rest) (ground arith) (omega arith)
      ∙ parse_from-digit (n / 10) (n % 10) rest (omega arith) (omega arith)
      ∙ ap (λ m. parse_from m rest) (omega arith))
]

-- A text that begins with a digit is parsed from its first character.
parse-digit : (d : ℕ) (s : String) → d < 10 → parse (digit d ∷ s) ≡ parse_from 0 (digit d ∷ s)
unfolding parse
parse-digit d [] h = refl
parse-digit d (c ∷ s) h = rw (code-digit d h) (ground arith)

parse-show_from :
    (fuel n : ℕ) (rest : String)
    → n < fuel
    → parse (show_from fuel n rest) ≡ parse_from 0 (show_from fuel n rest)
unfolding show_from
parse-show_from zero n rest h = absurd (omega arith)
parse-show_from (suc fuel) n rest h = elim (Bool-cases (ltb n 10)) [
  | inl small ↦ rw small (parse-digit (n % 10) rest (omega arith))
  | inr large ↦ rw large (parse-show_from fuel (n / 10) (digit (n % 10) ∷ rest) (ground arith))
]

-- Parsing what `to_string` prints gives the number back.
pub parse-show : (n : ℕ) → n ≤ usize_max → parse (show n) ≡ some n
unfolding show
parse-show n h =
    parse-show_from (suc n) n [] (omega arith)
    ∙ parse_from-show_from (suc n) n [] (omega arith) h
    ∙ parse_from-end n

-- A parsed number is a `usize`.
parse_from-le :
    (n : ℕ) (s : String) (m : ℕ) → n ≤ usize_max → parse_from n s ≡ some m → m ≤ usize_max
unfolding parse_from
parse_from-le n [] m h e = ground arith
parse_from-le n (c ∷ s) m h e = ground (arith, parse_from-le (n * 10 + (code c - 48)) s m)

pub parse-le : (s : String) (m : ℕ) → parse s ≡ some m → m ≤ usize_max
unfolding parse
parse-le [] m e = cc
parse-le (c ∷ []) m e = parse_from-le 0 (c ∷ []) m (omega arith) e
parse-le (c ∷ d ∷ s) m e = elim (Bool-cases (code c == b'+')) [
  | inl plus ↦ parse_from-le 0 (d ∷ s) m (omega arith) (rw plus at e)
  | inr other ↦ parse_from-le 0 (c ∷ d ∷ s) m (omega arith) (rw other at e)
]

show_max : show usize_max ≡ "18446744073709551615"
unfolding show
show_max = refl
