-- ===== src/Cloud/Rows.antt =====
-- The rows of the dashboard's cloud client, read from the answer of a request.
use just_in_time.Prelude.{
  Bool, false, if◌then◌else◌, Option, none, some, List, [], ◌∷◌, ◌++◌, Bytes, codes, ℤ, pos,
}
use just_in_time.Backup.{is_in, sort_names}
use just_in_time.Cloud.{
  Value, null, boolean, number, text, array, object, Items, no_items, item, Fields, no_fields,
  field, Result, ok, ◌>>=◌, value_text, value_number, value_boolean, member,
}

-- for (const auto& r : arr): an object gives its values, null nothing, and any other value itself.
abbrev pub items : Items → List Value
items no_items = []
items (item v vs) = v ∷ items vs

abbrev pub field_values : Fields → List Value
field_values no_fields = []
field_values (field k v fs) = v ∷ field_values fs

abbrev pub elements : Value → List Value
elements null = []
elements (boolean b) = boolean b ∷ []
elements (number n) = number n ∷ []
elements (text s) = text s ∷ []
elements (array vs) = items vs
elements (object fs) = field_values fs

-- The loop that pushes one row after another and stops at an exception.
unfoldable pub each {ℓ} : {A : Type ℓ} → (Value → Result A) → List Value → Result (List A)
each read [] = ok []
each read (v ∷ vs) = read v >>= λ a. each read vs >>= λ rest. ok (a ∷ rest)

pub record DailyTotal : Type 0 where
  pub device_id : Bytes
  pub process_name : Bytes
  pub day : Bytes
  pub total_seconds : ℤ

unfoldable pub daily_total : Value → Result DailyTotal
daily_total r = do
  device ← value_text (codes "device_id") [] r
  process ← value_text (codes "process_name") [] r
  day ← value_text (codes "day") [] r
  total ← value_number (codes "total_seconds") (pos 0) r
  ok (record { device_id = device; process_name = process; day = day; total_seconds = total })

pub record RecentLog : Type 0 where
  pub device_id : Bytes
  pub process_name : Bytes
  pub window_title : Bytes
  pub duration : ℤ
  pub start_time : ℤ
  pub end_time : ℤ

unfoldable pub recent_log : Value → Result RecentLog
recent_log r = do
  device ← value_text (codes "device_id") [] r
  process ← value_text (codes "process_name") [] r
  title ← value_text (codes "window_title") [] r
  duration ← value_number (codes "duration_seconds") (pos 0) r
  start ← value_number (codes "start_time") (pos 0) r
  end_time ← value_number (codes "end_time") (pos 0) r
  ok (record {
    device_id = device;
    process_name = process;
    window_title = title;
    duration = duration;
    start_time = start;
    end_time = end_time;
  })

pub record Message : Type 0 where
  pub id : ℤ
  pub sender_device_id : Bytes
  pub target_device_id : Bytes
  pub kind : Bytes
  pub payload : Bytes
  pub created_at : Bytes
  pub read_at : Option Bytes

-- A field that is a string, or nothing.
abbrev pub text_if : Option Value → Option Bytes
text_if none = none
text_if (some (text s)) = some s
text_if (some null) = none
text_if (some (boolean b)) = none
text_if (some (number n)) = none
text_if (some (array vs)) = none
text_if (some (object fs)) = none

unfoldable pub message : Value → Result Message
message r = do
  id ← value_number (codes "id") (pos 0) r
  sender ← value_text (codes "sender_device_id") [] r
  target ← value_text (codes "target_device_id") [] r
  kind ← value_text (codes "kind") [] r
  payload ← value_text (codes "payload") [] r
  created ← value_text (codes "created_at") [] r
  ok (record {
    id = id;
    sender_device_id = sender;
    target_device_id = target;
    kind = kind;
    payload = payload;
    created_at = created;
    read_at = text_if (member (codes "read_at") r);
  })

pub record ParentLink : Type 0 where
  pub id : ℤ
  pub other_user_id : Bytes
  pub other_email : Bytes
  pub status : Bytes
  pub created_at : Bytes
  pub approved_at : Option Bytes

-- `user` and `email` name the columns of the other account.
unfoldable pub parent_link : Bytes → Bytes → Value → Result ParentLink
parent_link user email r = do
  id ← value_number (codes "id") (pos 0) r
  other ← value_text user [] r
  mail ← value_text email [] r
  status ← value_text (codes "status") [] r
  created ← value_text (codes "created_at") [] r
  ok (record {
    id = id;
    other_user_id = other;
    other_email = mail;
    status = status;
    created_at = created;
    approved_at = text_if (member (codes "approved_at") r);
  })

unfoldable pub permission : Value → Result (ℤ × Bytes)
permission r = do
  id ← value_number (codes "id") (pos 0) r
  level ← value_text (codes "permission_level") (codes "full") r
  ok (id, level)

pub record AppLimit : Type 0 where
  pub id : ℤ
  pub process_name : Bytes
  pub daily_limit_sec : Option ℤ
  pub blocked : Bool

abbrev pub number_if : Option Value → Option ℤ
number_if none = none
number_if (some (number n)) = some n
number_if (some null) = none
number_if (some (boolean b)) = none
number_if (some (text s)) = none
number_if (some (array vs)) = none
number_if (some (object fs)) = none

unfoldable pub app_limit : Value → Result AppLimit
app_limit r = do
  id ← value_number (codes "id") (pos 0) r
  process ← value_text (codes "process_name") [] r
  blocked ← value_boolean (codes "blocked") false r
  ok (record {
    id = id;
    process_name = process;
    daily_limit_sec = number_if (member (codes "daily_limit_sec") r);
    blocked = blocked;
  })

-- `to_json` of an app limit, which the dashboard's page reads.
abbrev pub number_or_null : Option ℤ → Value
number_or_null none = null
number_or_null (some n) = number n

unfoldable pub limit_to_json : AppLimit → Value
limit_to_json l = object (
    field (codes "id") (number l.id) (
      field (codes "process_name") (text l.process_name) (
        field (codes "daily_limit_sec") (number_or_null l.daily_limit_sec)
          (field (codes "blocked") (boolean l.blocked) no_fields))))

-- std::find over the devices so far, and push_back. Texts are ordered as file names are.
unfoldable pub add_new : Bytes → List Bytes → List Bytes
add_new d out = if is_in out d then out else out ++ d ∷ []

unfoldable pub collect_devices : List DailyTotal → List Bytes → List Bytes
collect_devices [] out = out
collect_devices (t ∷ ts) out = collect_devices ts (add_new t.device_id out)

unfoldable pub distinct_devices : List DailyTotal → List Bytes
distinct_devices ts = sort_names (collect_devices ts [])
