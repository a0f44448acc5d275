-- ===== src/Examples/Cache.antt =====
-- Two entries, one of which carries a tag that is invalidated (cache.service.ts).
use acadid.Common.{
  ℕ, ◌+◌, ◌*◌, leb, none, some, List, [], ◌∷◌, ◌≡◌, arith, string_Eq, if◌then◌else◌,
}
use acadid.Common.Assoc.{lookup}
use acadid.Cache.Entries.{set_value, get_value, invalidate_tag, empty}
use acadid.Cache.Invalidate.{
  IsIndexed, carries, Operation, set, run_all, run_all-IsIndexed, lookup-invalidate_tag,
}
use acadid.Cache.Expiry.{get_value-set_value}

abbrev two_entries : List (Operation ℕ)
two_entries = set "a" 1 60 ("learners" ∷ []) 0 ∷ set "b" 2 60 ("batches" ∷ []) 0 ∷ []

run_all-IsIndexed_example : IsIndexed (run_all two_entries (empty {V = ℕ}))
run_all-IsIndexed_example = run_all-IsIndexed two_entries

lookup-invalidate_tag_example :
    lookup "a" (invalidate_tag "learners" (run_all two_entries empty)).entries ≡ (
      if carries (run_all two_entries empty) "learners" "a"
      then none
      else lookup "a" (run_all two_entries empty).entries)
lookup-invalidate_tag_example = lookup-invalidate_tag two_entries "learners" "a"

get_value-set_value_example :
    (get_value "a" 59999 (set_value "a" 1 60 [] 0 (run_all two_entries empty))).0
    ≡ (if leb (0 + 60 * 1000) 59999 then none else some 1)
get_value-set_value_example =
    get_value-set_value "a" 1 60 [] 0 59999 (run_all two_entries empty) (omega arith)
