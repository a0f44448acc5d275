-- ===== src/Uploads/Csv.antt =====
-- `csvRecords`: one pass over the characters, each with the one that follows it. A step that moves
-- the index past the following character leaves a mark to skip it.
use Prim.Native.Char.{Char, code}
use acadid.Common.{
  ℕ, nat_eq, String, Option, none, some, List, [], ◌∷◌, ◌++◌, Bool, true, false, not, ◌&&◌, ◌||◌,
  if◌then◌else◌,
}
use acadid.Common.Text.{trim, is_blank}

-- The variables of the loop; `rows` and `row` have the latest last.
pub record Scan : Type 0 where
  pub rows : List (List String)
  pub row : List String
  pub current : String
  pub in_quotes : Bool
  pub skips : Bool

abbrev pub scan_start : Scan
scan_start = record { rows = []; row = []; current = String.[]; in_quotes = false; skips = false }

-- `a + b` on texts
unfoldable pub text_append : String → String → String
text_append String.[] t = t
text_append (String.◌∷◌ c s) t = String.◌∷◌ c (text_append s t)

-- `text[index + 1]`
abbrev pub next_of : String → Option Char
next_of String.[] = none
next_of (String.◌∷◌ c s) = some c

abbrev pub is_char : ℕ → Option Char → Bool
is_char n none = false
is_char n (some c) = nat_eq (code c) n

-- `row.some((cell) => cell !== "")`
abbrev pub some_filled : List String → Bool
some_filled [] = false
some_filled (cell ∷ cells) = not (is_blank cell) || some_filled cells

abbrev pub push_row : List String → List (List String) → List (List String)
push_row row rows = if some_filled row then rows ++ (row ∷ []) else rows

abbrev pub add_char : Char → Scan → Scan
add_char c st = record st { current = text_append st.current (String.◌∷◌ c String.[]) }

abbrev pub end_cell : Scan → Scan
end_cell st = record st { row = st.row ++ (trim st.current ∷ []); current = String.[] }

abbrev pub end_row : Bool → Scan → Scan
end_row skip st = record {
  rows = push_row (st.row ++ (trim st.current ∷ [])) st.rows;
  row = [];
  current = String.[];
  in_quotes = st.in_quotes;
  skips = skip;
}

-- The body of the loop at one character.
unfoldable pub scan_char : Char → Option Char → Scan → Scan
scan_char c next st =
    if nat_eq (code c) b'"' && (st.in_quotes && is_char b'"' next)
    then record (add_char c st) { skips = true }
    else if nat_eq (code c) b'"'
    then record st { in_quotes = not st.in_quotes }
    else if nat_eq (code c) b',' && not st.in_quotes
    then end_cell st
    else if (nat_eq (code c) 10 || nat_eq (code c) 13) && not st.in_quotes
    then end_row (nat_eq (code c) 13 && is_char 10 next) st
    else add_char c st

unfoldable pub scan_text : String → Scan → Scan
unfolding scan_char
scan_text String.[] st = st
scan_text (String.◌∷◌ c s) st =
    scan_text s (if st.skips then record st { skips = false } else scan_char c (next_of s) st)

abbrev pub scan_end : Scan → List (List String)
scan_end st = push_row (st.row ++ (trim st.current ∷ [])) st.rows

unfoldable pub csv_records : String → List (List String)
unfolding scan_text
csv_records text = scan_end (scan_text text scan_start)
