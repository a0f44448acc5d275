-- ===== src/Uploads/Students.antt =====
-- A register of students, written under the names of the columns, is parsed as the same students.
use acadid.Common.{
  String, some, List, [], ◌∷◌, map, filterb, All, Bool, true, ◌≡◌, refl, ap, ◌∙◌, string_Eq,
}
use acadid.Common.Assoc.{lookup}
use acadid.Common.Text.{trim, trim_start, trim_end, is_space, to_lower, lower_char}
use acadid.Common.Outcome.{ok}
use acadid.Uploads.Csv.{some_filled}
use acadid.Uploads.Rows.{
  Row, map_record, map_columns, normalise_header, join_others, strip_left, strip_right,
  parse_records, parse_csv,
}
use acadid.Uploads.RoundTrip.{encode_csv, csv_records-encode_csv}

pub record Student : Type 0 where
  pub full_name : String
  pub date_of_birth : String
  pub student_number : String
  pub level : String
  pub programme : String
  pub phone : String

abbrev pub cells_of : Student → List String
cells_of s = s.full_name ∷ s.date_of_birth ∷ s.student_number ∷ s.level ∷ s.programme ∷ s.phone ∷ []

abbrev pub row_of : Student → Row
row_of s = record {
  full_name = some s.full_name;
  date_of_birth = some s.date_of_birth;
  student_number = some s.student_number;
  level = some s.level;
  programme = some s.programme;
  phone = some s.phone;
}

-- The cells have no white space around them and are not all empty.
pub record IsClean (s : Student) : Type 0 where
  pub trimmed : All (λ cell. trim cell ≡ cell) (cells_of s)
  pub filled : some_filled (cells_of s) ≡ true

abbrev pub column_names : List String
column_names =
    "Full Name" ∷ "Date of birth" ∷ "student_number" ∷ "LEVEL" ∷ "Programme" ∷ "Phone number" ∷ []

headers-normalised : map normalise_header (map trim column_names) ≡ (
    "full_name" ∷ "date_of_birth" ∷ "student_number" ∷ "level" ∷ "programme" ∷ "phone_number" ∷ [])
unfolding trim trim_start trim_end is_space to_lower lower_char normalise_header join_others
    strip_left strip_right
headers-normalised = refl

map-same {ℓ} : {A : Type ℓ} (f : A → A) (xs : List A) → All (λ x. f x ≡ x) xs → map f xs ≡ xs
map-same f [] h = refl
map-same f (x ∷ xs) (p, ps) = rw p (ap (λ l. x ∷ l) (map-same f xs ps))

filterb-cons {ℓ} :
    {A : Type ℓ} (p : A → Bool) (x : A) (xs : List A)
    → p x ≡ true
    → filterb p (x ∷ xs) ≡ x ∷ filterb p xs
filterb-cons p x xs h = rw h refl

clean-filled : (s : Student) → IsClean s → some_filled (map trim (cells_of s)) ≡ true
clean-filled s c = ap some_filled (map-same trim (cells_of s) c.trimmed) ∙ c.filled

clean-written :
    (ss : List Student)
    → All IsClean ss
    → filterb some_filled (map (λ row. map trim row) (map cells_of ss)) ≡ map cells_of ss
clean-written [] h = refl
clean-written (s ∷ ss) (c, cs) =
    ap (λ r. filterb some_filled (r ∷ map (λ row. map trim row) (map cells_of ss)))
      (map-same trim (cells_of s) c.trimmed)
    ∙ filterb-cons some_filled (cells_of s) (map (λ row. map trim row) (map cells_of ss)) c.filled
    ∙ ap (λ l. cells_of s ∷ l) (clean-written ss cs)

clean-kept :
    (ss : List Student)
    → All IsClean ss
    → filterb (λ cells. some_filled (map trim cells)) (map cells_of ss) ≡ map cells_of ss
clean-kept [] h = refl
clean-kept (s ∷ ss) (c, cs) = rw (clean-filled s c) (ap (λ l. cells_of s ∷ l) (clean-kept ss cs))

abbrev normal_names : List String
normal_names =
    "full_name" ∷ "date_of_birth" ∷ "student_number" ∷ "level" ∷ "programme" ∷ "phone_number" ∷ []

map_record-cells_of : (s : Student) → IsClean s → map_record normal_names (cells_of s) ≡ row_of s
unfolding map_columns lookup
map_record-cells_of s c =
    let (a, (b, (d, (e, (f, (g, done)))))) = c.trimmed in rw (a, b, d, e, f, g) refl

map_record-rows :
    (ss : List Student)
    → All IsClean ss
    → map (map_record normal_names) (map cells_of ss) ≡ map row_of ss
map_record-rows [] h = refl
map_record-rows (s ∷ ss) (c, cs) =
    rw (map_record-cells_of s c) (ap (λ l. row_of s ∷ l) (map_record-rows ss cs))

names-filled : some_filled (map trim column_names) ≡ true
unfolding trim trim_start trim_end is_space
names-filled = refl

-- Students whose cells have no white space around them, and are not all empty, are parsed from the
-- file that is written of at least one of them, under the names of the columns and with the lines
-- ended in either way, in order and unchanged.
pub parse_csv-encode_csv :
    (crlf : Bool) (s : Student) (ss : List Student)
    → All IsClean (s ∷ ss)
    → parse_csv (encode_csv crlf (column_names ∷ map cells_of (s ∷ ss))) ≡ ok (map row_of (s ∷ ss))
unfolding parse_csv
parse_csv-encode_csv crlf s ss clean =
    let rows = map cells_of (s ∷ ss) in
    ap parse_records (
      csv_records-encode_csv crlf (column_names ∷ rows)
      ∙ filterb-cons some_filled (map trim column_names) (map (λ row. map trim row) rows)
          names-filled
      ∙ ap (λ l. map trim column_names ∷ l) (clean-written (s ∷ ss) clean))
    ∙ ap (λ l. ok (map (map_record (map normalise_header (map trim column_names))) l))
        (clean-kept (s ∷ ss) clean)
    ∙ ap (λ names. ok (map (map_record names) rows)) headers-normalised
    ∙ ap ok (map_record-rows (s ∷ ss) clean)
