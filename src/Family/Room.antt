-- ===== src/Family/Room.antt =====
-- What is read and written fits into the buffers.
use just_in_time.Prelude.{
  ℕ, zero, suc, ◌+◌, ◌-◌, ◌*◌, ◌≤◌, ◌<◌, ◌≡◌, Bool, true, false, Option, none, some, List, [], ◌∷◌,
  ◌++◌, arith, Bytes, codes, All, length, length-append, length-map, take_all, map, ◌>>=◌,
}
use just_in_time.Json.{
  escape_byte, json_escape_string, json_extract_string, find_value_pos, string_at, copy_string,
  collect, json_array_next,
}
use just_in_time.Json.Escape.{IsPrintable}
use just_in_time.Auth.{Answer}
use just_in_time.Limits.{or_empty}
use just_in_time.Family.{
  Rest, Link, parse_link, objects, list_call, list_links, heartbeat_text, heartbeat_body,
}

copy_string-length : (room : ℕ) (s : Bytes) → length (copy_string room s) ≤ room
unfolding copy_string
copy_string-length zero s = omega arith
copy_string-length (suc room) [] = omega arith
copy_string-length (suc room) (c ∷ []) = ground arith
copy_string-length (suc room) (c ∷ d ∷ s) =
    ground (arith, copy_string-length room s, copy_string-length room (d ∷ s))

string_at-length : (pos : Bytes) (n : ℕ) → 0 < n → length (or_empty (string_at pos n)) < n
unfolding string_at
string_at-length [] n h = h
string_at-length (c ∷ s) n h = ground (arith, copy_string-length (n - 1) s)

-- A text that is read into a buffer of n bytes leaves room for its final 0.
extract_string-length :
    (obj key : Bytes) (n : ℕ) → 0 < n → length (or_empty (json_extract_string obj key n)) < n
unfolding json_extract_string
extract_string-length obj key n h = go (find_value_pos obj key)
  where
    go : (pos : Option Bytes) → length (or_empty (do p ← pos; string_at p n)) < n
    go none = h
    go (some p) = string_at-length p n h

collect-length : (room n : ℕ) (cursor : Bytes) → length (collect room cursor n) ≤ room
unfolding collect
collect-length zero n cursor = omega arith
collect-length (suc room) n cursor =
    ground (arith, collect-length room n (json_array_next cursor n).cursor)

-- The texts of a link fit into its fields.
abbrev pub IsInRoom : Link → Type 0
IsInRoom l = (length l.other_user_id < 40) × (length l.other_email < 256) × (length l.status < 16)

parse_link-IsInRoom : (u e obj : Bytes) → IsInRoom (parse_link u e obj)
unfolding parse_link
parse_link-IsInRoom u e obj = (
  extract_string-length obj u 40 (omega arith),
  extract_string-length obj e 256 (omega arith),
  extract_string-length obj (codes "status") 16 (omega arith),
)

map-IsInRoom : (u e : Bytes) (objs : List Bytes) → All IsInRoom (map (parse_link u e) objs)
map-IsInRoom u e [] = tt
map-IsInRoom u e (o ∷ objs) = (parse_link-IsInRoom u e o, map-IsInRoom u e objs)

objects-length : (max_out size : ℕ) (a : Option Answer) → length (objects max_out size a) ≤ max_out
objects-length max_out size none = omega arith
objects-length max_out size (some a) = ground (arith, collect-length max_out size a.body)

links-IsInRoom :
    (u e : Bytes) (max_out : ℕ) (a : Option Answer)
    → (length (map (parse_link u e) (objects max_out 2048 a)) ≤ max_out)
      × All IsInRoom (map (parse_link u e) (objects max_out 2048 a))
links-IsInRoom u e max_out a =
    let objs = objects max_out 2048 a in
    (
      omega (arith, length-map (parse_link u e) objs, objects-length max_out 2048 a),
      map-IsInRoom u e objs,
    )

-- Whatever the server answers, no more links are stored than the caller has room for, and the texts
-- of each fit into its fields.
pub list_links-IsInRoom :
    {N : Type 0} (rest : Rest N) (logged_in : Bool) (rpc u e : Bytes) (max_out : ℕ) (n : N)
    → (length (list_links rest logged_in rpc u e max_out n).0 ≤ max_out)
      × All IsInRoom (list_links rest logged_in rpc u e max_out n).0
unfolding list_links
list_links-IsInRoom rest false rpc u e max_out n = (omega arith, tt)
list_links-IsInRoom rest true rpc u e max_out n =
    links-IsInRoom u e max_out (rest.call (list_call rpc) 16384 n).0

printable_escape : (s : Bytes) → All IsPrintable s → length (json_escape_string s) ≤ 2 * length s
unfolding json_escape_string escape_byte
printable_escape [] p = omega arith
printable_escape (c ∷ s) p =
    let rest = printable_escape s p.1 in
    let here : length (escape_byte c) ≤ 2 = ground (arith, p.0) in
    omega (arith, here, rest, length-append (escape_byte c) (json_escape_string s))

framed :
    (a x b y c : Bytes) (m n : ℕ)
    → length x ≤ m
    → length y ≤ n
    → length (a ++ (x ++ (b ++ (y ++ c)))) ≤ length a + m + length b + n + length c
framed a x b y c m n h k = omega (
  arith,
  length-append a (x ++ (b ++ (y ++ c))),
  length-append x (b ++ (y ++ c)),
  length-append b (y ++ c),
  length-append y c,
)

-- The heartbeat of a machine whose id and label have no control characters, in their buffers of 32 and
-- 128 bytes, is sent whole: the buffer of 512 bytes cuts nothing off.
pub heartbeat_body_whole :
    (device label : Bytes)
    → All IsPrintable device
    → All IsPrintable label
    → length device ≤ 31
    → length label ≤ 127
    → heartbeat_body device label ≡ heartbeat_text device label
unfolding heartbeat_body heartbeat_text
heartbeat_body_whole device label p p' d l =
    let first = codes "{\"device_id\":\"" in
    let second = codes "\",\"hostname\":\"" in
    let last =
      codes "\",\"cpu_percent\":0,\"ram_percent\":0,\"disk_percent\":0,\"last_seen\":\"now()\"}" in
    let fits : length first + 62 + length second + 254 + length last ≤ 511 = omega arith in
    take_all 511 (heartbeat_text device label) (
      omega (
        arith,
        fits,
        framed first (json_escape_string device) second (json_escape_string label) last 62 254
            (omega (arith, printable_escape device p, d))
            (omega (arith, printable_escape label p', l)),
      ))
