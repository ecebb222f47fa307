-- ===== src/Cloud/Limits.antt =====
-- The limits in an answer of the server are read as they stand.
use just_in_time.Prelude.{
  ◌≡◌, ◌≢◌, refl, sym, ap, ◌∙◌, Bool, true, Option, none, some, List, [], ◌∷◌, Bytes, ℤ, map,
}
use just_in_time.Cloud.{
  Value, array, Items, no_items, item, Nlohmann, ok, read_answer, read_body, parsed, find_field,
}
use just_in_time.Cloud.Rows.{
  items, each, AppLimit, app_limit, limit_to_json, number_or_null, number_if,
}
use just_in_time.Cloud.Client.{Server, request, list_limits_for_child, list_limits_request}

-- nlohmann::json reads this value back from what it writes for it, which is not an empty text.
abbrev pub Restores : Nlohmann → Value → Type 0
Restores lib v = (lib.parse (lib.dump v) ≡ some v) × (lib.dump v ≢ [])

abbrev pub array_of : List Value → Items
array_of [] = no_items
array_of (v ∷ vs) = item v (array_of vs)

items-array_of : (vs : List Value) → items (array_of vs) ≡ vs
items-array_of [] = refl
items-array_of (v ∷ vs) = ap (λ l. v ∷ l) (items-array_of vs)

number_if-or_null : (o : Option ℤ) → number_if (some (number_or_null o)) ≡ o
number_if-or_null none = refl
number_if-or_null (some n) = refl

app_limit-to_json : (l : AppLimit) → app_limit (limit_to_json l) ≡ ok l
unfolding app_limit limit_to_json find_field
app_limit-to_json l =
    ap (λ o. ok (record l { daily_limit_sec = o })) (number_if-or_null l.daily_limit_sec)

each-to_json : (ls : List AppLimit) → each app_limit (map limit_to_json ls) ≡ ok ls
unfolding each
each-to_json [] = refl
each-to_json (l ∷ ls) = rw (app_limit-to_json l) (rw (each-to_json ls) refl)

read_body-dump :
    (lib : Nlohmann) (v : Value) (b : Bool) → Restores lib v → read_body lib b (lib.dump v) ≡ ok v
read_body-dump lib v b r = go (lib.dump v) refl
  where
    go : (text : Bytes) → lib.dump v ≡ text → read_body lib b text ≡ ok v
    go [] e = absurd (r.1 e)
    go (c ∷ text) e = ap (λ o. parsed o (lib.what (c ∷ text))) (ap lib.parse (sym e) ∙ r.0)

-- If the server answers 200 with limits as the dashboard's `to_json` writes them, `listLimitsForChild`
-- gives these limits, in order and with every field, also where there is no daily limit.
pub list_limits-to_json :
    {N : Type 0} (s : Server N) (child : Bytes) (ls : List AppLimit) (n n' : N)
    → Restores s.lib (array (array_of (map limit_to_json ls)))
    → s.send (list_limits_request child) n ≡ (
      some (record { status = 200; body = s.lib.dump (array (array_of (map limit_to_json ls))) }),
      n',
    )
    → list_limits_for_child s child n ≡ (ok ls, n')
unfolding list_limits_for_child request read_answer
list_limits-to_json s child ls n n' r e =
    let rows = map limit_to_json ls in
    rw e (
      rw (read_body-dump s.lib (array (array_of rows)) true r)
        (rw (items-array_of rows) (rw (each-to_json ls) refl)))
