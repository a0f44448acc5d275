-- ===== src/Common/Text.antt =====
-- What the services use of JavaScript's `String`: `trim`, the case of ASCII letters (no text that
-- they change the case of is meant to hold others), and the test for a UUID.
use Prim.Native.Char.{Char, code}
use Prim.Native.String.{String, char_at}
use Prim.Native.Nat.{ℕ, zero, suc, ◌-◌}
use mathlib.Core.Bool.{Bool, true, false, ◌&&◌, ◌||◌}
use acadid.Common.Tests.{leb, nat_eq, if◌then◌else◌}

-- White space and line terminators of the language.
unfoldable pub is_space : ℕ → Bool
is_space c =
    (leb 9 c && leb c 13)
    || (nat_eq c 32
        || (nat_eq c 160
            || (nat_eq c 5760
                || ((leb 8192 c && leb c 8202)
                    || (nat_eq c 8232
                        || (nat_eq c 8233
                            || (nat_eq c 8239
                                || (nat_eq c 8287 || (nat_eq c 12288 || nat_eq c 65279)))))))))

abbrev pub is_blank : String → Bool
is_blank String.[] = true
is_blank (String.◌∷◌ c s) = false

unfoldable pub trim_start : String → String
unfolding is_space
trim_start String.[] = String.[]
trim_start (String.◌∷◌ c s) =
    let rest = trim_start s in if is_space (code c) then rest else String.◌∷◌ c s

unfoldable pub trim_end : String → String
unfolding is_space
trim_end String.[] = String.[]
trim_end (String.◌∷◌ c s) =
    let rest = trim_end s in
    if is_space (code c) && is_blank rest then String.[] else String.◌∷◌ c rest

-- `s.trim()`
unfoldable pub trim : String → String
unfolding trim_start trim_end
trim s = trim_end (trim_start s)

unfoldable pub upper_char : Char → Char
upper_char c =
    if leb b'a' (code c) && leb (code c) b'z'
    then char_at "ABCDEFGHIJKLMNOPQRSTUVWXYZ" (code c - b'a')
    else c

unfoldable pub lower_char : Char → Char
lower_char c =
    if leb b'A' (code c) && leb (code c) b'Z'
    then char_at "abcdefghijklmnopqrstuvwxyz" (code c - b'A')
    else c

-- `s.toUpperCase()`
unfoldable pub to_upper : String → String
unfolding upper_char
to_upper String.[] = String.[]
to_upper (String.◌∷◌ c s) = String.◌∷◌ (upper_char c) (to_upper s)

-- `s.toLowerCase()`
unfoldable pub to_lower : String → String
unfolding lower_char
to_lower String.[] = String.[]
to_lower (String.◌∷◌ c s) = String.◌∷◌ (lower_char c) (to_lower s)

unfoldable pub is_hex : ℕ → Bool
is_hex c = (leb b'0' c && leb c b'9') || ((leb b'a' c && leb c b'f') || (leb b'A' c && leb c b'F'))

-- What stands at a position of `xxxxxxxx-xxxx-[1-5]xxx-[89ab]xxx-xxxxxxxxxxxx`.
unfoldable pub is_uuid_char : ℕ → ℕ → Bool
unfolding is_hex
is_uuid_char i c =
    if nat_eq i 8 || (nat_eq i 13 || (nat_eq i 18 || nat_eq i 23))
    then nat_eq c b'-'
    else if nat_eq i 14
    then leb b'1' c && leb c b'5'
    else if nat_eq i 19
    then nat_eq c b'8'
      || (nat_eq c b'9' || (nat_eq c b'a' || (nat_eq c b'b' || (nat_eq c b'A' || nat_eq c b'B'))))
    else is_hex c

unfoldable pub is_uuid_from : ℕ → String → Bool
unfolding is_uuid_char
is_uuid_from i String.[] = nat_eq i 36
is_uuid_from i (String.◌∷◌ c s) = is_uuid_char i (code c) && is_uuid_from (suc i) s

-- `isUuid`
unfoldable pub is_uuid : String → Bool
unfolding is_uuid_from
is_uuid s = is_uuid_from 0 s

-- `s.length`, for texts whose characters are one unit each
unfoldable pub length_of : String → ℕ
length_of String.[] = 0
length_of (String.◌∷◌ c s) = suc (length_of s)

-- `s.slice(0, n)`
unfoldable pub slice_to : ℕ → String → String
slice_to zero s = String.[]
slice_to (suc n) String.[] = String.[]
slice_to (suc n) (String.◌∷◌ c s) = String.◌∷◌ c (slice_to n s)

-- `s.startsWith(prefix)`
unfoldable pub starts_with : String → String → Bool
starts_with String.[] s = true
starts_with (String.◌∷◌ c p) String.[] = false
starts_with (String.◌∷◌ c p) (String.◌∷◌ d s) = nat_eq (code c) (code d) && starts_with p s
