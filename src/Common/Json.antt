-- ===== src/Common/Json.antt =====
-- JSON values, as the services read them from a column or a request of unknown shape.
use Prim.Native.String.{String}
use mathlib.Core.Bool.{Bool}
use mathlib.Core.Option.{Option, none, some}
use mathlib.Core.List.{List, [], ◌∷◌}
use acadid.Common.Tests.{◌==◌, string_Eq, if◌then◌else◌}
use acadid.Common.Number.{Number}

mutual
  pub data Json : Type 0 where
    null : Json
    bool : Bool → Json
    num : Number → Json
    str : String → Json
    arr : Items → Json
    obj : Fields → Json

  pub data Items : Type 0 where
    nil : Items
    cons : Json → Items → Items

  pub data Fields : Type 0 where
    end : Fields
    field : String → Json → Fields → Fields

-- `record[key]`, where a key that is not there reads as undefined
abbrev pub get : String → Fields → Option Json
get key end = none
get key (field k v fs) = if k == key then some v else get key fs

-- The fields of a value that is an object and no array; of any other value, none.
abbrev pub as_record : Option Json → Fields
as_record (some (obj fs)) = fs
as_record (some null) = end
as_record (some (bool b)) = end
as_record (some (num n)) = end
as_record (some (str s)) = end
as_record (some (arr xs)) = end
as_record none = end

-- `Object.entries`
abbrev pub entries : Fields → List (String × Json)
entries end = []
entries (field k v fs) = (k, v) ∷ entries fs
