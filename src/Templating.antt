-- ===== src/Templating.antt =====
-- src/engine/templating.rs: templates with `${field}`, `${field?}`, `${field|csv}`,
-- `${field|default(v)}` and `${$.path}`.
--
-- The text of a value and the parser of JSON are the library's: `to_string` and `from_str`.
pub mod Literal
mod Tests
use Prim.Native.String.{[], ◌∷◌}
use Prim.Native.Char.{Char, code}
use mathlib.Core.List
use rust_mcp_core.Common.{
  Bool, List, Option, String, and_then, err, false, filter, get_elem?, if◌then◌else◌, map, nat_eq,
  none, not, ok, some, string_eq, true, ℕ, ◌&&◌, ◌++◌, ◌<>◌, ◌==◌, ◌>>=◌, ◌>>◌,
}
use rust_mcp_core.Errors.{Fallible, bad_params}
use rust_mcp_core.Json.{
  Object, Value, Values, array, as_array, bool, cons, elements, end, get, nil, null, number, object,
  put, string,
}
use rust_mcp_core.Text.{
  contains, contains_char, ends_with_char, eq_ignore_ascii_case, init, is_empty, join, split_char,
  starts_with, strip_prefix, strip_suffix_char, trim, trim_end,
}
use rust_mcp_core.Text.Decimal.{parse}

pub record RenderContext : Type 0 where
  pub args : Value
  pub response : Option Value

pub data Rendered : Type 0 where
  value : Value → Rendered
  omit : Rendered

pub data Filter : Type 0 where
  default : Value → Filter
  csv : Filter

pub data PathToken : Type 0 where
  field : String → PathToken
  index : ℕ → PathToken

-- the token of a name, if there is one
abbrev named : String → List PathToken → List PathToken
named [] ts = ts
named (c ∷ s) ts = List.◌∷◌ (field (c ∷ s)) ts

-- the token of a bracket, if it holds a number
abbrev indexed : String → List PathToken → List PathToken
indexed s ts = elim (parse s) [ none ↦ ts | some n ↦ List.◌∷◌ (index n) ts ]

-- Where `parse_path` stands: outside a bracket with the name so far, or inside one with its text.
pub data PathState : Type 0 where
  in_name in_bracket : String → PathState

-- one character: the tokens that it ends, and the next state
unfoldable pub path_step : PathState → Char → List PathToken × PathState
path_step (in_name name) c =
    if code c == b'.'
    then (named name List.[], in_name [])
    else if code c == b'['
    then (named name List.[], in_bracket [])
    else (List.[], in_name (name <> (c ∷ [])))
path_step (in_bracket text) c =
    if code c == b']'
    then (indexed text List.[], in_name [])
    else (List.[], in_bracket (text <> (c ∷ [])))

unfoldable pub path_from : PathState → String → List PathToken
unfolding path_step
path_from (in_name name) [] = named name List.[]
path_from (in_bracket text) [] = indexed text List.[]
path_from state (c ∷ s) = let (ts, after) = path_step state c in ts ++ path_from after s

unfoldable pub parse_path : String → List PathToken
unfolding path_from
parse_path path = path_from (in_name []) path

abbrev step : PathToken → Value → Option Value
step (field name) v = get name v
step (index n) v = and_then (as_array v) (λ vs. get_elem? (elements vs) n)

unfoldable pub follow_path : List PathToken → Value → Option Value
follow_path List.[] v = some v
follow_path (List.◌∷◌ t ts) v = and_then (step t v) (follow_path ts)

unfoldable pub select_path : Value → String → Option Value
unfolding parse_path follow_path
select_path v path = follow_path (parse_path path) v

unfoldable pub resolve_base : String → RenderContext → Option Value
unfolding select_path
resolve_base expr ctx = if expr == "$" then ctx.response else elim (strip_prefix "$." expr) [
  | some path ↦ and_then ctx.response (λ v. select_path v path)
  | none ↦ select_path ctx.args expr
]

unfoldable pub is_missing : Option Value → Bool
is_missing none = true
is_missing (some null) = true
is_missing (some _) = false

-- `value[2..value.len() - 1]` of a text that starts with "${"
abbrev inside : String → String
inside (c ∷ d ∷ s) = init s
inside s = []

unfoldable pub single_placeholder : String → Option String
single_placeholder s =
    if starts_with "${" s
      && ends_with_char b'}' s
      && not (contains "${" (inside s))
      && not (contains_char b'}' (inside s))
    then some (inside s)
    else none

-- The parts of a template, in the order in which the loop of `render_string` comes to them.
pub data Segment : Type 0 where
  text expression : String → Segment
  unterminated : Segment

-- Where that loop stands: in a text, right behind a '$' that follows a text, or in an expression.
pub data SegmentState : Type 0 where
  in_text in_dollar in_expression : String → SegmentState

unfoldable pub segment_step : SegmentState → Char → List Segment × SegmentState
segment_step (in_text t) c =
    if code c == b'$' then (List.[], in_dollar t) else (List.[], in_text (t <> (c ∷ [])))
segment_step (in_dollar t) c =
    if code c == b'{'
    then (List.◌∷◌ (text t) List.[], in_expression [])
    else if code c == b'$'
    then (List.[], in_dollar (t <> "$"))
    else (List.[], in_text (t <> ("$" <> (c ∷ []))))
segment_step (in_expression e) c =
    if code c == b'}'
    then (List.◌∷◌ (expression e) List.[], in_text [])
    else (List.[], in_expression (e <> (c ∷ [])))

unfoldable pub segments_from : SegmentState → String → List Segment
unfolding segment_step
segments_from (in_text t) [] = List.◌∷◌ (text t) List.[]
segments_from (in_dollar t) [] = List.◌∷◌ (text (t <> "$")) List.[]
segments_from (in_expression e) [] = List.◌∷◌ unterminated List.[]
segments_from state (c ∷ s) = let (ts, after) = segment_step state c in ts ++ segments_from after s

module _ (to_string : Value → String) (from_str : String → Option Value) where
  unfoldable pub value_to_string : Value → String
  value_to_string (string s) = s
  value_to_string (number n) = n.literal
  value_to_string (bool b) = if b then "true" else "false"
  value_to_string null = "null"
  value_to_string v = to_string v

  unfoldable pub to_csv_string : Value → String
  unfolding value_to_string
  to_csv_string (array vs) = join "," (map value_to_string (elements vs))
  to_csv_string v = value_to_string v

  unfoldable pub parse_default_literal : String → Value
  parse_default_literal raw =
      let trimmed = trim raw in
      if is_empty trimmed
      then null
      else elim (from_str trimmed) [ some v ↦ v | none ↦ string trimmed ]

  unfoldable pub parse_filter : String → Fallible Filter
  unfolding parse_default_literal
  parse_filter raw =
      let filter = trim raw in
      if eq_ignore_ascii_case filter "csv"
      then ok csv
      else elim (and_then (strip_prefix "default(" filter) (strip_suffix_char b')')) [
        | some inner ↦ ok (default (parse_default_literal inner))
        | none ↦ err (bad_params ("unsupported filter '" <> (filter <> "'")))
      ]

  unfoldable pub parse_filters : List String → Fallible (List Filter)
  unfolding parse_filter
  parse_filters List.[] = ok List.[]
  parse_filters (List.◌∷◌ raw raws) = do
    f ← parse_filter raw
    fs ← parse_filters raws
    ok (List.◌∷◌ f fs)

  -- the base path and the filters, of the parts between the bars
  unfoldable pub parse_parts : List String → Fallible (String × List Filter)
  unfolding parse_filters
  parse_parts List.[] = err (bad_params "empty template expression")
  parse_parts (List.◌∷◌ first parts) =
      let base = trim first in
      if is_empty base
      then err (bad_params "empty template expression")
      else do filters ← parse_filters parts; ok (base, filters)

  unfoldable pub parse_expression : String → Fallible (String × Bool × List Filter)
  unfolding parse_parts
  parse_expression expr =
      let trimmed = trim expr in
      do
        (base, filters) ← parse_parts (split_char b'|' (trim_end (λ c. code c == b'?') trimmed))
        ok (base, ends_with_char b'?' trimmed, filters)

  unfoldable pub apply_filters : List Filter → Option Value → Option Value
  unfolding is_missing to_csv_string
  apply_filters List.[] v = v
  apply_filters (List.◌∷◌ (default d) fs) v = apply_filters fs (if is_missing v then some d else v)
  apply_filters (List.◌∷◌ csv fs) none = apply_filters fs none
  apply_filters (List.◌∷◌ csv fs) (some v) = apply_filters fs (some (string (to_csv_string v)))

  -- what an expression comes to, once its value is known
  unfoldable pub missing : String → Bool → Fallible Rendered
  missing base optional =
      if optional
      then ok omit
      else err (bad_params ("missing required value for '" <> (base <> "'")))

  unfoldable pub rendered : String → Bool → Option Value → Fallible Rendered
  unfolding missing
  rendered base optional none = missing base optional
  rendered base optional (some null) = missing base optional
  rendered base optional (some v) = ok (value v)

  unfoldable pub render_expression : RenderContext → String → Fallible Rendered
  unfolding parse_expression resolve_base apply_filters rendered
  render_expression ctx expr = do
    (base, optional, filters) ← parse_expression expr
    rendered base optional (apply_filters filters (resolve_base base ctx))

  module _ (ctx : RenderContext) where
    unfoldable pub render_segments : List Segment → Fallible String
    unfolding render_expression value_to_string
    render_segments List.[] = ok ""
    render_segments (List.◌∷◌ (text t) ss) = do rest ← render_segments ss; ok (t <> rest)
    render_segments (List.◌∷◌ (expression e) ss) = do
      r ← render_expression ctx e
      rest ← render_segments ss
      ok (elim r [ value v ↦ value_to_string v <> rest | omit ↦ rest ])
    render_segments (List.◌∷◌ unterminated ss) = err (bad_params "unterminated template expression")

    unfoldable pub render_string : String → Fallible Rendered
    unfolding render_segments single_placeholder segments_from render_expression
    render_string s = elim (single_placeholder (trim s)) [
      | some expr ↦ render_expression ctx expr
      | none ↦ do
        output ← render_segments (segments_from (in_text []) s)
        ok (value (string output))
    ]

    abbrev push : Rendered → Values → Values
    push (value v) vs = cons v vs
    push omit vs = vs

    abbrev insert : String → Rendered → Object → Object
    insert k (value v) o = put k v o
    insert k omit o = o

    unfoldable mutual
      unfolding render_string

      pub render_inner : Value → Fallible Rendered
      render_inner null = ok (value null)
      render_inner (bool b) = ok (value (bool b))
      render_inner (number n) = ok (value (number n))
      render_inner (string s) = render_string s
      render_inner (array vs) = do out ← render_values vs; ok (value (array out))
      render_inner (object o) = do out ← render_fields o end; ok (value (object out))

      pub render_values : Values → Fallible Values
      render_values nil = ok nil
      render_values (cons v vs) = do r ← render_inner v; rest ← render_values vs; ok (push r rest)

      -- the fields, inserted into those that are rendered before them
      pub render_fields : Object → Object → Fallible Object
      render_fields end out = ok out
      render_fields (Object.field k v o) out = do
        r ← render_inner v
        render_fields o (insert k r out)

    unfoldable pub render_value : Value → Fallible Value
    unfolding render_inner
    render_value template = do r ← render_inner template; ok (elim r [ value v ↦ v | omit ↦ null ])
