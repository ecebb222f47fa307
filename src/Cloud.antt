-- ===== src/Cloud.antt =====
-- src/dashboard/cloud.cpp: the dashboard's requests to Supabase. HTTP and nlohmann::json are outside:
-- the values of a JSON text are modelled, reading and writing the text is not. Numbers in JSON are
-- integers here, so the percentages of the heartbeats are left out.
pub mod Encode
pub mod Rows
pub mod Client
pub mod Invite
pub mod Limits
pub mod Devices
mod Examples
use just_in_time.Prelude.{
  ℕ, ◌+◌, ◌-◌, ◌/◌, ◌%◌, leb, ltb, ◌==◌, if◌then◌else◌, Bool, true, false, not, ◌&&◌, ◌||◌, Option,
  none, some, List, [], ◌∷◌, ◌++◌, Bytes, codes, ℤ, print_ℕ, is_digit, length, bytes_eq, is_prefix,
}
use just_in_time.Auth.{Answer, is_success}

-- Uppercase hexadecimal digits without leading zeros, of a byte.
abbrev pub hex : ℕ → ℕ
hex n = if ltb n 10 then b'0' + n else b'A' + (n - 10)

abbrev pub print_hex : ℕ → Bytes
print_hex c = if ltb c 16 then hex c ∷ [] else hex (c / 16) ∷ hex (c % 16) ∷ []

-- isalnum(c) || c == '-' || c == '_' || c == '.' || c == '~'
abbrev pub is_alnum : ℕ → Bool
is_alnum c = is_digit c || ((leb b'A' c && leb c b'Z') || (leb b'a' c && leb c b'z'))

abbrev pub is_unreserved : ℕ → Bool
is_unreserved c = is_alnum c || ((c == b'-') || ((c == b'_') || ((c == b'.') || (c == b'~'))))

unfoldable pub url_encode : Bytes → Bytes
url_encode [] = []
url_encode (c ∷ s) = (if is_unreserved c then c ∷ [] else b'%' ∷ print_hex c) ++ url_encode s

-- The values of nlohmann::json.
mutual
  pub data Value : Type 0 where
    null : Value
    boolean : Bool → Value
    number : ℤ → Value
    text : Bytes → Value
    array : Items → Value
    object : Fields → Value

  pub data Items : Type 0 where
    no_items : Items
    item : Value → Items → Items

  pub data Fields : Type 0 where
    no_fields : Fields
    field : Bytes → Value → Fields → Fields

-- What the code takes from nlohmann::json: parse, which may throw, dump, and the text of an exception.
pub record Nlohmann : Type 0 where
  pub parse : Bytes → Option Value
  pub dump : Value → Bytes
  pub what : Bytes → Bytes

-- The exceptions of cloud.h, and those of nlohmann::json.
pub data Result {ℓ} (A : Type ℓ) : Type ℓ where
  ok : A → Result A
  unauthorized : Result A
  auth_error : Bytes → Result A
  api_error : Bytes → Result A
  json_error : Result A

infixl 5 ◌>>=◌
abbrev pub ◌>>=◌ {ℓ κ} : {A : Type ℓ} {B : Type κ} → Result A → (A → Result B) → Result B
ok a >>= f = f a
unauthorized >>= f = unauthorized
auth_error why >>= f = auth_error why
api_error why >>= f = api_error why
json_error >>= f = json_error

unfoldable pub find_field : Bytes → Fields → Option Value
find_field key no_fields = none
find_field key (field k v fs) = if bytes_eq k key then some v else find_field key fs

-- data.contains(key), and data[key]
abbrev pub member : Bytes → Value → Option Value
member key null = none
member key (boolean b) = none
member key (number n) = none
member key (text s) = none
member key (array vs) = none
member key (object fs) = find_field key fs

-- r.value(key, fallback) throws on a value that is no object, and if the field has another type.
abbrev pub text_of : Bytes → Option Value → Result Bytes
text_of fallback none = ok fallback
text_of fallback (some (text s)) = ok s
text_of fallback (some null) = json_error
text_of fallback (some (boolean b)) = json_error
text_of fallback (some (number n)) = json_error
text_of fallback (some (array vs)) = json_error
text_of fallback (some (object fs)) = json_error

abbrev pub number_of : ℤ → Option Value → Result ℤ
number_of fallback none = ok fallback
number_of fallback (some (number n)) = ok n
number_of fallback (some null) = json_error
number_of fallback (some (boolean b)) = json_error
number_of fallback (some (text s)) = json_error
number_of fallback (some (array vs)) = json_error
number_of fallback (some (object fs)) = json_error

abbrev pub boolean_of : Bool → Option Value → Result Bool
boolean_of fallback none = ok fallback
boolean_of fallback (some (boolean b)) = ok b
boolean_of fallback (some null) = json_error
boolean_of fallback (some (number n)) = json_error
boolean_of fallback (some (text s)) = json_error
boolean_of fallback (some (array vs)) = json_error
boolean_of fallback (some (object fs)) = json_error

abbrev pub fields_of : Value → Result Fields
fields_of (object fs) = ok fs
fields_of null = json_error
fields_of (boolean b) = json_error
fields_of (number n) = json_error
fields_of (text s) = json_error
fields_of (array vs) = json_error

abbrev pub value_text : Bytes → Bytes → Value → Result Bytes
value_text key fallback v = fields_of v >>= λ fs. text_of fallback (find_field key fs)

abbrev pub value_number : Bytes → ℤ → Value → Result ℤ
value_number key fallback v = fields_of v >>= λ fs. number_of fallback (find_field key fs)

abbrev pub value_boolean : Bytes → Bool → Value → Result Bool
value_boolean key fallback v = fields_of v >>= λ fs. boolean_of fallback (find_field key fs)

-- What `Client::request` makes of the result of httpsRequest; `none` is a network error.
abbrev pub parsed : Option Value → Bytes → Result Value
parsed none why = api_error (codes "invalid JSON from supabase: " ++ why)
parsed (some v) why = ok v

abbrev pub read_body : Nlohmann → Bool → Bytes → Result Value
read_body lib expect_array [] = ok (if expect_array then array no_items else object no_fields)
read_body lib expect_array (c ∷ s) = parsed (lib.parse (c ∷ s)) (lib.what (c ∷ s))

abbrev pub status_error : Answer → Bytes
status_error a = codes "supabase returned " ++ (print_ℕ a.status ++ (codes ": " ++ a.body))

unfoldable pub read_answer : Nlohmann → Bool → Option Answer → Result Value
read_answer lib expect_array none = api_error (codes "network error contacting Supabase")
read_answer lib expect_array (some a) =
    if a.status == 401
    then unauthorized
    else if is_success a.status
    then read_body lib expect_array a.body
    else api_error (status_error a)

-- `Session` of cloud.h
pub record Login : Type 0 where
  pub user_id : Bytes
  pub email : Bytes
  pub access_token : Bytes
  pub refresh_token : Bytes

abbrev pub nonempty_text : Option Value → Option Bytes
nonempty_text none = none
nonempty_text (some null) = none
nonempty_text (some (boolean b)) = none
nonempty_text (some (number n)) = none
nonempty_text (some (array vs)) = none
nonempty_text (some (object fs)) = none
nonempty_text (some (text [])) = none
nonempty_text (some (text (c ∷ s))) = some (c ∷ s)

abbrev pub or_else : Option Bytes → Bytes → Bytes
or_else none fallback = fallback
or_else (some s) fallback = s

abbrev pub unexpected_error : ℕ → Bytes
unexpected_error status = codes "unexpected error (HTTP " ++ (print_ℕ status ++ codes ")")

abbrev pub error_message : Option Value → ℕ → Bytes
error_message none status = unexpected_error status
error_message (some v) status = or_else (nonempty_text (member (codes "error_description") v)) (
    or_else (nonempty_text (member (codes "msg") v))
      (or_else (nonempty_text (member (codes "message") v)) (unexpected_error status)))

unfoldable pub parse_auth_error_message : Nlohmann → Answer → Bytes
parse_auth_error_message lib a = error_message (lib.parse a.body) a.status

abbrev pub user_fields : Option Value → Login → Result Login
user_fields none s = ok s
user_fields (some null) s = ok s
user_fields (some (boolean b)) s = ok s
user_fields (some (number n)) s = ok s
user_fields (some (text t)) s = ok s
user_fields (some (array vs)) s = ok s
user_fields (some (object fs)) s = do
  user_id ← value_text (codes "id") [] (object fs)
  email ← value_text (codes "email") [] (object fs)
  ok (record s { user_id = user_id; email = email })

abbrev pub session_of : Option Value → Result Login
session_of none = json_error
session_of (some raw) = do
  access ← value_text (codes "access_token") [] raw
  refresh ← value_text (codes "refresh_token") [] raw
  user_fields (member (codes "user") raw)
      (record { user_id = []; email = []; access_token = access; refresh_token = refresh })

unfoldable pub parse_session_response : Nlohmann → Bytes → Result Login
parse_session_response lib body = session_of (lib.parse body)

-- `login` and `refreshSession`, from the answer of their request.
unfoldable pub token_result : Nlohmann → Option Answer → Result Login
token_result lib none = api_error (codes "network error contacting Supabase")
token_result lib (some a) =
    if a.status == 200
    then parse_session_response lib a.body
    else auth_error (parse_auth_error_message lib a)

-- `logout`: a token that the server no longer knows is no error.
unfoldable pub logout_result : Nlohmann → Option Answer → Result (Unit {0})
logout_result lib none = api_error (codes "network error contacting Supabase")
logout_result lib (some a) =
    if (a.status == 204) || (a.status == 401)
    then ok tt
    else auth_error (parse_auth_error_message lib a)

abbrev pub oauth_login : Bytes → Bytes → Value → Bytes → Result Login
oauth_login access refresh user [] =
    auth_error (codes "OAuth provider did not return an email address")
oauth_login access refresh user (c ∷ email) = do
  user_id ← value_text (codes "id") [] user
  ok (record {
    user_id = user_id;
    email = c ∷ email;
    access_token = access;
    refresh_token = refresh;
  })

abbrev pub oauth_user : Bytes → Bytes → Option Value → Result Login
oauth_user access refresh none = json_error
oauth_user access refresh (some user) = do
  email ← value_text (codes "email") [] user
  oauth_login access refresh user email

-- `sessionFromOAuthTokens`; without both tokens no request is made.
unfoldable pub oauth_result : Nlohmann → Bytes → Bytes → Option Answer → Result Login
oauth_result lib [] refresh a = auth_error (codes "missing access_token or refresh_token")
oauth_result lib (c ∷ access) [] a = auth_error (codes "missing access_token or refresh_token")
oauth_result lib (c ∷ access) (d ∷ refresh) none =
    api_error (codes "network error contacting Supabase")
oauth_result lib (c ∷ access) (d ∷ refresh) (some a) =
    if a.status == 200
    then oauth_user (c ∷ access) (d ∷ refresh) (lib.parse a.body)
    else auth_error (parse_auth_error_message lib a)
