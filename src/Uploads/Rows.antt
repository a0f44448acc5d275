-- ===== src/Uploads/Rows.antt =====
-- `parseCsv`, `mapRecord`, `normaliseHeader` and the names of the columns that an upload may have.
use Prim.Native.Char.{Char, code}
use Prim.Native.String.{char_at}
use acadid.Common.{
  ℕ, leb, nat_eq, coalesce, get_elem?, suc, String, Option, none, some, List, [], ◌∷◌, map, filterb,
  Bool, false, not, ◌&&◌, ◌||◌, string_Eq, if◌then◌else◌,
}
use acadid.Common.Assoc.{Assoc, lookup}
use acadid.Common.Text.{trim, is_blank, to_lower}
use acadid.Common.Outcome.{Outcome, ok, throw, non_retryable}
use acadid.Uploads.Csv.{csv_records, some_filled}

pub data Field : Type 0 where
  full_name date_of_birth student_number level programme phone : Field

-- `headerMap`
abbrev pub header_map : Assoc String Field
header_map =
    ("fullname", full_name)
    ∷ ("full_name", full_name)
    ∷ ("name", full_name)
    ∷ ("studentname", full_name)
    ∷ ("student_name", full_name)
    ∷ ("learnername", full_name)
    ∷ ("learner_name", full_name)
    ∷ ("dateofbirth", date_of_birth)
    ∷ ("date_of_birth", date_of_birth)
    ∷ ("dob", date_of_birth)
    ∷ ("birthdate", date_of_birth)
    ∷ ("birth_date", date_of_birth)
    ∷ ("studentnumber", student_number)
    ∷ ("student_number", student_number)
    ∷ ("admissionnumber", student_number)
    ∷ ("admission_number", student_number)
    ∷ ("admissionno", student_number)
    ∷ ("admission_no", student_number)
    ∷ ("schoolid", student_number)
    ∷ ("school_id", student_number)
    ∷ ("learnerid", student_number)
    ∷ ("learner_id", student_number)
    ∷ ("level", level)
    ∷ ("class", level)
    ∷ ("gradelevel", level)
    ∷ ("grade_level", level)
    ∷ ("programme", programme)
    ∷ ("program", programme)
    ∷ ("department", programme)
    ∷ ("track", programme)
    ∷ ("phone", phone)
    ∷ ("phonenumber", phone)
    ∷ ("phone_number", phone)
    ∷ ("mobile", phone)
    ∷ []

-- `Partial<StudentRegisterRow>`
pub record Row : Type 0 where
  pub full_name : Option String
  pub date_of_birth : Option String
  pub student_number : Option String
  pub level : Option String
  pub programme : Option String
  pub phone : Option String

abbrev pub empty_row : Row
empty_row = record {
  full_name = none;
  date_of_birth = none;
  student_number = none;
  level = none;
  programme = none;
  phone = none;
}

-- `row[target] = cell`
abbrev pub set_field : Field → String → Row → Row
set_field full_name cell row = record row { full_name = some cell }
set_field date_of_birth cell row = record row { date_of_birth = some cell }
set_field student_number cell row = record row { student_number = some cell }
set_field level cell row = record row { level = some cell }
set_field programme cell row = record row { programme = some cell }
set_field phone cell row = record row { phone = some cell }

abbrev pub is_alphanumeric : ℕ → Bool
is_alphanumeric c =
    (leb b'a' c && leb c b'z') || ((leb b'A' c && leb c b'Z') || (leb b'0' c && leb c b'9'))

abbrev pub underscore : Char
underscore = char_at "_" 0

-- `.replace(/^\uFEFF/, "")`
abbrev pub without_mark : String → String
without_mark String.[] = String.[]
without_mark (String.◌∷◌ c s) = if nat_eq (code c) 65279 then s else String.◌∷◌ c s

-- `.replace(/[^a-zA-Z0-9]+/g, "_")`; the flag says that the last character was replaced.
unfoldable pub join_others : Bool → String → String
join_others replaced String.[] = String.[]
join_others replaced (String.◌∷◌ c s) =
    let rest = join_others (not (is_alphanumeric (code c))) s in
    if is_alphanumeric (code c)
    then String.◌∷◌ c rest
    else if replaced
    then rest
    else String.◌∷◌ underscore rest

-- `.replace(/^_+|_+$/g, "")`
unfoldable pub strip_left : String → String
strip_left String.[] = String.[]
strip_left (String.◌∷◌ c s) =
    let rest = strip_left s in if nat_eq (code c) b'_' then rest else String.◌∷◌ c s

unfoldable pub strip_right : String → String
strip_right String.[] = String.[]
strip_right (String.◌∷◌ c s) =
    let rest = strip_right s in
    if nat_eq (code c) b'_' && is_blank rest then String.[] else String.◌∷◌ c rest

unfoldable pub normalise_header : String → String
unfolding trim join_others strip_left strip_right to_lower
normalise_header value =
    to_lower (strip_right (strip_left (join_others false (without_mark (trim value)))))

abbrev pub set_known : Option Field → String → Row → Row
set_known none cell row = row
set_known (some field) cell row = set_field field cell row

-- The headers from the index on.
unfoldable pub map_columns : List String → ℕ → List String → Row → Row
map_columns [] i cells row = row
map_columns (header ∷ headers) i cells row =
    map_columns headers (suc i) cells
      (set_known (lookup header header_map) (trim (coalesce (get_elem? cells i) "")) row)

abbrev pub map_record : List String → List String → Row
map_record headers cells = map_columns headers 0 cells empty_row

abbrev pub parse_records : List (List String) → Outcome (List Row)
parse_records [] =
    throw (non_retryable "CSV upload must include a header row and at least one student row.")
parse_records (header ∷ []) =
    throw (non_retryable "CSV upload must include a header row and at least one student row.")
parse_records (header ∷ first ∷ rest) = ok (
    map (map_record (map normalise_header header))
      (filterb (λ cells. some_filled (map trim cells)) (first ∷ rest)))

unfoldable pub parse_csv : String → Outcome (List Row)
unfolding csv_records map_columns normalise_header
parse_csv text = parse_records (csv_records text)
