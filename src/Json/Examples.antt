-- ===== src/Json/Examples.antt =====
-- The theorems on JSON texts at small ones, as the agent writes and gets them.
use just_in_time.Prelude.{◌≡◌, List, [], ◌∷◌, map, take, arith}
use just_in_time.Json.{escape_byte, json_escape_string, collect}
use just_in_time.Json.Array.{
  Body, end, char, quoted, braced, print_array, print_object, collect-print_array,
}

-- {"a":"}"} and {{}}
abbrev two_objects : List Body
two_objects = quoted (b'a' ∷ []) (char b':' (quoted (b'}' ∷ []) end)) ∷ braced end end ∷ []

collect-print_array_example :
    collect 10 (print_array two_objects) 512 ≡ take 10 (map print_object two_objects)
unfolding json_escape_string escape_byte
collect-print_array_example = collect-print_array two_objects 512 10 (omega arith)
