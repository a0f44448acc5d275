-- ===== src/Examples/Uploads.antt =====
-- A register with a comma, a quote and a blank row (bulk-upload-parser.service.ts).
use acadid.Common.{String, List, [], ◌∷◌, map, filterb, true, false, ◌≡◌, refl}
use acadid.Common.Text.{trim, trim_start, trim_end, is_space}
use acadid.Common.Outcome.{ok}
use acadid.Uploads.Csv.{some_filled, csv_records, scan_text, scan_char, text_append}
use acadid.Uploads.Rows.{parse_csv}
use acadid.Uploads.RoundTrip.{encode_csv, csv_records-encode_csv}
use acadid.Uploads.Students.{Student, IsClean, cells_of, row_of, column_names, parse_csv-encode_csv}

abbrev sheet : List (List String)
sheet = ("Name" ∷ "Level" ∷ []) ∷ (" " ∷ "" ∷ []) ∷ (" Bello, \"Ada\"" ∷ "SS1" ∷ []) ∷ []

csv_records-encode_csv_example :
    csv_records (encode_csv true sheet) ≡ filterb some_filled (map (λ row. map trim row) sheet)
csv_records-encode_csv_example = csv_records-encode_csv true sheet

-- Cells that are not in quotes.
plain_cells :
    csv_records "Name,Level\r\nAda,SS1\n\nBayo"
    ≡ ("Name" ∷ "Level" ∷ []) ∷ ("Ada" ∷ "SS1" ∷ []) ∷ ("Bayo" ∷ []) ∷ []
unfolding csv_records scan_text scan_char text_append trim trim_start trim_end is_space
plain_cells = refl

abbrev ada : Student
ada = record {
  full_name = "Bello, Ada";
  date_of_birth = "2009-04-01";
  student_number = "N-1";
  level = "SS1";
  programme = "Science";
  phone = "";
}

ada-IsClean : IsClean ada
unfolding trim trim_start trim_end is_space
ada-IsClean = record { trimmed = (refl, (refl, (refl, (refl, (refl, (refl, tt)))))); filled = refl }

parse_csv-encode_csv_example :
    parse_csv (encode_csv false (column_names ∷ cells_of ada ∷ [])) ≡ ok (row_of ada ∷ [])
parse_csv-encode_csv_example = parse_csv-encode_csv false ada [] (ada-IsClean, tt)
