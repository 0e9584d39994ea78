-- ===== src/Outbound/Texts.antt =====
-- src/http/outbound_pipeline.rs: the headers of a request are texts.
use rust_mcp_core.Common.Map
use rust_mcp_core.Common.{
  Bool-cases, Option, String, [], ap, arith, inl, inr, nat_eq, none, or_else, refl, some, string_eq,
  sym, ◌==◌, ◌∷◌, ◌≡◌,
}
use rust_mcp_core.Common.Map.{Map}
use rust_mcp_core.Json.{Object, Value, entries, put, string}
use rust_mcp_core.Json.Laws.{entries-of_entries}
use rust_mcp_core.Outbound.{header_texts, set_header, set_headers}

abbrev pub as_string : Option String → Option Value
as_string none = none
as_string (some s) = some (string s)

pub as_string-or_else :
    (a b : Option String) → as_string (or_else a b) ≡ or_else (as_string a) (as_string b)
as_string-or_else none b = refl
as_string-or_else (some s) b = refl

pub as_string-inj : (a b : Option String) → as_string a ≡ as_string b → a ≡ b
as_string-inj none none e = refl
as_string-inj none (some t) e = grind arith
as_string-inj (some s) none e = grind arith
as_string-inj (some s) (some t) e = grind arith

-- Header values that are texts.
abbrev pub IsText : String → Value → Type 0
IsText k v = (s : String) × (v ≡ string s)

pub set_header-IsText :
    (key : String) (v : Option String) (o : Object)
    → Map.Every IsText (entries o)
    → Map.Every IsText (entries (set_header key v o))
unfolding put
set_header-IsText key none o h = h
set_header-IsText key (some s) o h =
    rw (entries-of_entries (Map.insert key (string s) (entries o)))
      (Map.Every-insert IsText key (string s) (entries o) (s, refl) h)

pub set_headers-IsText :
    (m : Map String String) (o : Object)
    → Map.Every IsText (entries o)
    → Map.Every IsText (entries (set_headers m o))
unfolding set_headers
set_headers-IsText [] o h = h
set_headers-IsText ((k, s) ∷ m) o h =
    set_headers-IsText m (put k (string s) o) (set_header-IsText k (some s) o h)

-- Where every value is a text, reading them all succeeds and keeps the value of each key.
pub header_texts-some :
    (k : String) (m : Map String Value)
    → Map.Every IsText m
    → (texts : Map String String) × (header_texts m ≡ some texts)
      × (as_string (Map.get k texts) ≡ Map.get k m)
unfolding header_texts Map.get
header_texts-some k [] h = ([], refl, refl)
header_texts-some k ((j, v) ∷ m) h =
    let (s, is_text) = h.0 in
    let (texts, read, same) = header_texts-some k m (h.1) in
    (
      (j, s) ∷ texts,
      rw (is_text, read) refl,
      elim (Bool-cases (j == k)) [
        | inl here ↦ rw (here) (ap some (sym is_text))
        | inr there ↦ rw (there) same
      ],
    )
