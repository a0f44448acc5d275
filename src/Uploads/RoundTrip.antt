-- ===== src/Uploads/RoundTrip.antt =====
-- A file is read back as the cells that were written to it, when each is written in quotes.
use Prim.Native.Char.{Char, code}
use Prim.Native.String.{char_at}
use acadid.Common.{
  nat_eq, String, Option, some, List, [], ◌∷◌, ◌++◌, map, filterb, append_assoc, append-nil, Bool,
  true, false, ◌≡◌, refl, sym, ap, ◌∙◌, inl, inr, if◌then◌else◌, Bool-cases, arith,
}
use acadid.Common.Text.{trim, trim_start, trim_end}
use acadid.Uploads.Csv.{
  Scan, text_append, next_of, is_char, some_filled, push_row, scan_char, scan_text, scan_end,
  csv_records,
}

abbrev quote : Char
quote = char_at "\"" 0

abbrev comma : Char
comma = char_at "," 0

abbrev line_feed : Char
line_feed = char_at "\n" 0

abbrev carriage_return : Char
carriage_return = char_at "\r" 0

-- The text of a cell up to its closing quote, each quote in it doubled, and what follows.
unfoldable quoted : String → String → String
quoted String.[] rest = String.◌∷◌ quote rest
quoted (String.◌∷◌ c s) rest =
    let more = quoted s rest in
    if nat_eq (code c) b'"' then String.◌∷◌ c (String.◌∷◌ c more) else String.◌∷◌ c more

abbrev line_end : Bool → String → String
line_end true rest = String.◌∷◌ carriage_return (String.◌∷◌ line_feed rest)
line_end false rest = String.◌∷◌ line_feed rest

unfoldable encode_cells : Bool → String → List String → String → String
unfolding quoted
encode_cells crlf cell [] rest = String.◌∷◌ quote (quoted cell (line_end crlf rest))
encode_cells crlf cell (next ∷ cells) rest =
    String.◌∷◌ quote (quoted cell (String.◌∷◌ comma (encode_cells crlf next cells rest)))

abbrev encode_row : Bool → List String → String → String
encode_row crlf [] rest = line_end crlf rest
encode_row crlf (cell ∷ cells) rest = encode_cells crlf cell cells rest

-- The rows as a file, whose lines end with a line feed alone or after a carriage return.
unfoldable pub encode_csv : Bool → List (List String) → String
unfolding encode_cells
encode_csv crlf [] = String.[]
encode_csv crlf (row ∷ rows) = encode_row crlf row (encode_csv crlf rows)

text_append-nil : (s : String) → text_append s String.[] ≡ s
unfolding text_append
text_append-nil String.[] = refl
text_append-nil (String.◌∷◌ c s) = ap (String.◌∷◌ c) (text_append-nil s)

text_append_assoc :
    (s t u : String) → text_append (text_append s t) u ≡ text_append s (text_append t u)
unfolding text_append
text_append_assoc String.[] t u = refl
text_append_assoc (String.◌∷◌ c s) t u = ap (String.◌∷◌ c) (text_append_assoc s t u)

abbrev state : List (List String) → List String → String → Bool → Scan
state rows row current in_quotes = record {
  rows = rows;
  row = row;
  current = current;
  in_quotes = in_quotes;
  skips = false;
}

text_append-snoc :
    (s : String) (c : Char) (t : String)
    → text_append (text_append s (String.◌∷◌ c String.[])) t ≡ text_append s (String.◌∷◌ c t)
unfolding text_append
text_append-snoc s c t = text_append_assoc s (String.◌∷◌ c String.[]) t

closing_quote :
    (c : Char) (next : Option Char) (rows : List (List String)) (row : List String)
    (current : String)
    → nat_eq (code c) b'"' ≡ true
    → is_char b'"' next ≡ false
    → scan_char c next (state rows row current true) ≡ state rows row current false
unfolding scan_char
closing_quote c next rows row current is_quote apart = rw (is_quote, apart) refl

opening_quote :
    (c : Char) (next : Option Char) (rows : List (List String)) (row : List String)
    (current : String)
    → nat_eq (code c) b'"' ≡ true
    → scan_char c next (state rows row current false) ≡ state rows row current true
unfolding scan_char
opening_quote c next rows row current is_quote = rw is_quote refl

doubled_quote :
    (c : Char) (next : Option Char) (rows : List (List String)) (row : List String)
    (current : String)
    → nat_eq (code c) b'"' ≡ true
    → is_char b'"' next ≡ true
    → scan_char c next (state rows row current true)
      ≡ record (state rows row (text_append current (String.◌∷◌ c String.[])) true) { skips = true }
unfolding scan_char
doubled_quote c next rows row current is_quote again = rw (is_quote, again) refl

other_inside :
    (c : Char) (next : Option Char) (rows : List (List String)) (row : List String)
    (current : String)
    → nat_eq (code c) b'"' ≡ false
    → scan_char c next (state rows row current true)
      ≡ state rows row (text_append current (String.◌∷◌ c String.[])) true
unfolding scan_char
other_inside c next rows row current other = rw other (ground arith)

quoted-quote :
    (c : Char) (s rest : String)
    → nat_eq (code c) b'"' ≡ true
    → quoted (String.◌∷◌ c s) rest ≡ String.◌∷◌ c (String.◌∷◌ c (quoted s rest))
unfolding quoted
quoted-quote c s rest h = rw h refl

quoted-other :
    (c : Char) (s rest : String)
    → nat_eq (code c) b'"' ≡ false
    → quoted (String.◌∷◌ c s) rest ≡ String.◌∷◌ c (quoted s rest)
unfolding quoted
quoted-other c s rest h = rw h refl

scan_text-quoted :
    (s rest : String) (rows : List (List String)) (row : List String) (current : String)
    → is_char b'"' (next_of rest) ≡ false
    → scan_text (quoted s rest) (state rows row current true)
      ≡ scan_text rest (state rows row (text_append current s) false)
unfolding scan_text quoted
scan_text-quoted String.[] rest rows row current apart = ap (scan_text rest) (
    closing_quote quote (next_of rest) rows row current refl apart
    ∙ ap (λ x. state rows row x false) (sym (text_append-nil current)))
scan_text-quoted (String.◌∷◌ c s) rest rows row current apart =
    let more =
      scan_text-quoted s rest rows row (text_append current (String.◌∷◌ c String.[])) apart in
    let end =
      more ∙ ap (λ x. scan_text rest (state rows row x false)) (text_append-snoc current c s) in
    elim (Bool-cases (nat_eq (code c) b'"')) [
      | inl is_quote ↦
          ap (λ t. scan_text t (state rows row current true)) (quoted-quote c s rest is_quote)
          ∙ ap (scan_text (String.◌∷◌ c (quoted s rest)))
              (doubled_quote c (some c) rows row current is_quote is_quote)
          ∙ end
      | inr other ↦
          ap (λ t. scan_text t (state rows row current true)) (quoted-other c s rest other)
          ∙ ap (scan_text (quoted s rest))
              (other_inside c (next_of (quoted s rest)) rows row current other)
          ∙ end
    ]

-- A whole cell, read from its opening quote.
scan_text-cell :
    (cell rest : String) (rows : List (List String)) (row : List String)
    → is_char b'"' (next_of rest) ≡ false
    → scan_text (String.◌∷◌ quote (quoted cell rest)) (state rows row String.[] false)
      ≡ scan_text rest (state rows row cell false)
unfolding scan_text text_append
scan_text-cell cell rest rows row apart =
    ap (scan_text (quoted cell rest))
      (opening_quote quote (next_of (quoted cell rest)) rows row String.[] refl)
    ∙ scan_text-quoted cell rest rows row String.[] apart

abbrev pushed : List (List String) → List String → List (List String)
pushed rows row = push_row row rows

scan_text-line_end :
    (crlf : Bool) (rest : String) (rows : List (List String)) (row : List String) (current : String)
    → scan_text (line_end crlf rest) (state rows row current false)
      ≡ scan_text rest (state (pushed rows (row ++ (trim current ∷ []))) [] String.[] false)
unfolding scan_text scan_char
scan_text-line_end true rest rows row current = refl
scan_text-line_end false rest rows row current = refl

scan_text-comma :
    (rest : String) (rows : List (List String)) (row : List String) (current : String)
    → scan_text (String.◌∷◌ comma rest) (state rows row current false)
      ≡ scan_text rest (state rows (row ++ (trim current ∷ [])) String.[] false)
unfolding scan_text scan_char
scan_text-comma rest rows row current = refl

line_end-apart : (crlf : Bool) (rest : String) → is_char b'"' (next_of (line_end crlf rest)) ≡ false
line_end-apart true rest = refl
line_end-apart false rest = refl

scan_text-cells :
    (crlf : Bool) (cell : String) (cells : List String) (rest : String) (rows : List (List String))
    (row : List String)
    → scan_text (encode_cells crlf cell cells rest) (state rows row String.[] false)
      ≡ scan_text rest (state (pushed rows (row ++ map trim (cell ∷ cells))) [] String.[] false)
unfolding encode_cells
scan_text-cells crlf cell [] rest rows row =
    scan_text-cell cell (line_end crlf rest) rows row (line_end-apart crlf rest)
    ∙ scan_text-line_end crlf rest rows row cell
scan_text-cells crlf cell (next ∷ cells) rest rows row =
    scan_text-cell cell (String.◌∷◌ comma (encode_cells crlf next cells rest)) rows row refl
    ∙ scan_text-comma (encode_cells crlf next cells rest) rows row cell
    ∙ scan_text-cells crlf next cells rest rows (row ++ (trim cell ∷ []))
    ∙ ap (λ cs. scan_text rest (state (pushed rows cs) [] String.[] false))
        (append_assoc row (trim cell ∷ []) (map trim (next ∷ cells)))

scan_text-row :
    (crlf : Bool) (cells : List String) (rest : String) (rows : List (List String))
    → scan_text (encode_row crlf cells rest) (state rows [] String.[] false)
      ≡ scan_text rest (state (pushed rows (map trim cells)) [] String.[] false)
unfolding trim trim_start trim_end
scan_text-row crlf [] rest rows = scan_text-line_end crlf rest rows [] String.[] ∙ refl
scan_text-row crlf (cell ∷ cells) rest rows = scan_text-cells crlf cell cells rest rows []

pushed-append :
    (before : List (List String)) (row : List String) (after : List (List String))
    → pushed before row ++ after ≡ before ++ (if some_filled row then row ∷ after else after)
pushed-append before row after = elim (Bool-cases (some_filled row)) [
  | inl filled ↦ rw filled (append_assoc before (row ∷ []) after)
  | inr blank ↦ rw blank refl
]

scan_text-rows :
    (crlf : Bool) (rows before : List (List String))
    → scan_text (encode_csv crlf rows) (state before [] String.[] false)
      ≡ state (before ++ filterb some_filled (map (λ row. map trim row) rows)) [] String.[] false
unfolding encode_csv scan_text
scan_text-rows crlf [] before = ap (λ r. state r [] String.[] false) (sym (append-nil before))
scan_text-rows crlf (row ∷ rows) before =
    scan_text-row crlf row (encode_csv crlf rows) before
    ∙ scan_text-rows crlf rows (pushed before (map trim row))
    ∙ ap (λ r. state r [] String.[] false)
        (pushed-append before (map trim row) (filterb some_filled (map (λ row. map trim row) rows)))

-- Rows written with each cell in quotes, their lines ended in either way, are read back in order as
-- their trimmed cells, without the rows of which all cells are blank.
pub csv_records-encode_csv :
    (crlf : Bool) (rows : List (List String))
    → csv_records (encode_csv crlf rows) ≡ filterb some_filled (map (λ row. map trim row) rows)
unfolding csv_records trim trim_start trim_end
csv_records-encode_csv crlf rows = ap scan_end (scan_text-rows crlf rows [])
