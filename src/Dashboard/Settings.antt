-- ===== src/Dashboard/Settings.antt =====
-- The dashboard's settings survive saving, and the key of an older file is not kept in the open.
use just_in_time.Prelude.{
  ℕ, ◌-◌, ◌%◌, ◌^◌, ◌≤◌, ◌≡◌, ◌⊎◌, inl, inr, refl, sym, ap, ◌∙◌, true, false, Option, none, some,
  [], ◌∷◌, Bytes, codes, arith, ltb, ℤ, pos, negsuc, IsInt32, int_max,
}
use just_in_time.Cloud.{
  Value, null, boolean, number, text, array, object, Fields, no_fields, find_field,
}
use just_in_time.Dashboard.{
  DashSettings, Outside, default_settings, or_empty, wrapped, to_int, int_or, open_key, key_in,
  settings_in, settings_of, load_dash_settings, disk_fields, enc_field, sealed_fields, key_fields,
  save_dash_settings,
}

wrapped-IsInt32 : (m : ℕ) → m ≤ 2 ^ 32 - 1 → IsInt32 (wrapped m)
wrapped-IsInt32 m h = ground arith

to_int-IsInt32 : (a : ℤ) → IsInt32 (to_int a)
unfolding to_int
to_int-IsInt32 (pos n) = wrapped-IsInt32 (n % 2 ^ 32) (omega arith)
to_int-IsInt32 (negsuc n) = wrapped-IsInt32 (2 ^ 32 - 1 - n % 2 ^ 32) (omega arith)

wrapped-low : (m : ℕ) → m ≤ int_max → wrapped m ≡ pos m
wrapped-low m h = ground arith

wrapped-high : (n : ℕ) → n ≤ int_max → wrapped (2 ^ 32 - 1 - n) ≡ negsuc n
wrapped-high n h =
    let high : ltb (2 ^ 32 - 1 - n) (2 ^ 31) ≡ false = ground arith in
    rw high (ap negsuc (omega arith))

to_int_same : (a : ℤ) → IsInt32 a → to_int a ≡ a
unfolding to_int
to_int_same (pos n) h = let same : n % 2 ^ 32 ≡ n = omega arith in rw same (wrapped-low n h)
to_int_same (negsuc n) h = let same : n % 2 ^ 32 ≡ n = omega arith in rw same (wrapped-high n h)

-- The three thresholds are values of an int.
abbrev pub IsInRange : DashSettings → Type 0
IsInRange s = IsInt32 s.cpu_threshold × IsInt32 s.ram_threshold × IsInt32 s.disk_threshold

int_or-IsInt32 : (old : ℤ) (v : Option Value) → IsInt32 old → IsInt32 (int_or old v)
int_or-IsInt32 old (some (number n)) h = to_int-IsInt32 n
int_or-IsInt32 old none h = h
int_or-IsInt32 old (some null) h = h
int_or-IsInt32 old (some (boolean b)) h = h
int_or-IsInt32 old (some (text s)) h = h
int_or-IsInt32 old (some (array vs)) h = h
int_or-IsInt32 old (some (object fs)) h = h

default_settings-IsInRange : IsInRange default_settings
default_settings-IsInRange = (omega arith, omega arith, omega arith)

settings_in-IsInRange : (o : Outside) (fs : Fields) → IsInRange (settings_in o fs)
unfolding settings_in
settings_in-IsInRange o fs =
    let (cpu, ram, disk) = default_settings-IsInRange in
    let d = default_settings in
    (
      int_or-IsInt32 d.cpu_threshold (find_field (codes "cpu_threshold") fs) cpu,
      int_or-IsInt32 d.ram_threshold (find_field (codes "ram_threshold") fs) ram,
      int_or-IsInt32 d.disk_threshold (find_field (codes "disk_threshold") fs) disk,
    )

settings_of-IsInRange : (o : Outside) (v : Option Value) → IsInRange (settings_of o v)
settings_of-IsInRange o (some (object fs)) = settings_in-IsInRange o fs
settings_of-IsInRange o none = default_settings-IsInRange
settings_of-IsInRange o (some null) = default_settings-IsInRange
settings_of-IsInRange o (some (boolean b)) = default_settings-IsInRange
settings_of-IsInRange o (some (number n)) = default_settings-IsInRange
settings_of-IsInRange o (some (text s)) = default_settings-IsInRange
settings_of-IsInRange o (some (array vs)) = default_settings-IsInRange

load-IsInRange : (o : Outside) (file : Option Bytes) → IsInRange (load_dash_settings o file)
unfolding load_dash_settings
load-IsInRange o none = default_settings-IsInRange
load-IsInRange o (some s) = settings_of-IsInRange o (o.parse s)

-- nlohmann::json reads an object back from what it writes, with the same fields in any order.
abbrev pub Restores : Outside → Fields → Type 0
Restores o fs =
    (fs' : Fields) × (o.parse (o.dump_2 (object fs)) ≡ some (object fs'))
    × ((k : Bytes) → find_field k fs' ≡ find_field k fs)

-- A key that is not empty, which DPAPI and base64 give back, and neither makes an empty text of it.
pub record IsSealable (o : Outside) (key : Bytes) : Type 0 where
  pub first : ℕ
  pub more : Bytes
  pub shape : key ≡ first ∷ more
  pub c : ℕ
  pub enc : Bytes
  pub d : ℕ
  pub b64 : Bytes
  pub protected : o.dpapi.protect key ≡ some (c ∷ enc)
  pub encoded : o.encode (c ∷ enc) ≡ d ∷ b64
  pub decoded : o.decode (d ∷ b64) ≡ some (c ∷ enc)
  pub opened : o.dpapi.unprotect (c ∷ enc) ≡ some key

settings_in-same :
    (o : Outside) (fs fs' : Fields)
    → ((k : Bytes) → find_field k fs' ≡ find_field k fs)
    → settings_in o fs' ≡ settings_in o fs
unfolding settings_in key_in
settings_in-same o fs fs' same =
    rw
      (
        same (codes "font"),
        same (codes "language"),
        same (codes "cpu_threshold"),
        same (codes "ram_threshold"),
        same (codes "disk_threshold"),
        same (codes "time_format"),
        same (codes "default_period"),
        same (codes "gemini_api_key_enc"),
        same (codes "gemini_api_key"),
      )
      refl

settings_in-no_key :
    (o : Outside) (s : DashSettings)
    → IsInRange s
    → settings_in o (disk_fields s no_fields) ≡ record s { gemini_api_key = [] }
unfolding settings_in key_in disk_fields find_field
settings_in-no_key o s (cpu, ram, disk) =
    rw
      (
        to_int_same s.cpu_threshold cpu,
        to_int_same s.ram_threshold ram,
        to_int_same s.disk_threshold disk,
      )
      refl

settings_in-key :
    (o : Outside) (s : DashSettings) (enc : Bytes)
    → IsInRange s
    → settings_in o (disk_fields s (enc_field o enc))
      ≡ record s { gemini_api_key = open_key o (o.encode enc) }
unfolding settings_in key_in disk_fields find_field
settings_in-key o s enc (cpu, ram, disk) =
    rw
      (
        to_int_same s.cpu_threshold cpu,
        to_int_same s.ram_threshold ram,
        to_int_same s.disk_threshold disk,
      )
      refl

open_key-sealed :
    (o : Outside) (key : Bytes) (k : IsSealable o key) → open_key o (o.encode (k.c ∷ k.enc)) ≡ key
unfolding open_key
open_key-sealed o key k = rw k.encoded (rw k.decoded (rw k.opened refl))

key_fields-sealed :
    (o : Outside) (key : Bytes) (k : IsSealable o key)
    → key_fields o key ≡ some (enc_field o (k.c ∷ k.enc))
key_fields-sealed o key k =
    ap (key_fields o) k.shape
    ∙ ap (λ e. sealed_fields o (or_empty e)) (ap o.dpapi.protect (sym k.shape) ∙ k.protected)

-- The fields that are written for these settings: they say the same settings, and no plain key.
abbrev IsGood : Outside → DashSettings → Fields → Type 0
IsGood o s key =
    (key_fields o s.gemini_api_key ≡ some key)
    × (settings_in o (disk_fields s key) ≡ s)
    × (find_field (codes "gemini_api_key") (disk_fields s key) ≡ none)

written_fields :
    (o : Outside) (s : DashSettings)
    → IsInRange s
    → (s.gemini_api_key ≡ []) ⊎ IsSealable o s.gemini_api_key
    → (key : Fields) × IsGood o s key
written_fields o s h (inl e) = (
  no_fields,
  (
    ap (key_fields o) e,
    settings_in-no_key o s h ∙ ap {A = Bytes} (λ k. record s { gemini_api_key = k }) (sym e),
    unfold disk_fields find_field in refl,
  ),
)
written_fields o s h (inr k) = (
  enc_field o (k.c ∷ k.enc),
  (
    key_fields-sealed o s.gemini_api_key k,
    settings_in-key o s (k.c ∷ k.enc) h
        ∙ ap {A = Bytes} (λ x. record s { gemini_api_key = x })
            (open_key-sealed o s.gemini_api_key k),
    unfold disk_fields find_field in refl,
  ),
)

load-parsed :
    (o : Outside) (new : Bytes) (fs : Fields)
    → o.parse new ≡ some (object fs)
    → load_dash_settings o (some new) ≡ settings_in o fs
unfolding load_dash_settings
load-parsed o new fs parsed = ap (settings_of o) parsed

-- The file is an object of JSON without a plain key.
abbrev pub HoldsNoKey : Outside → Option Bytes → Type 0
HoldsNoKey o file =
    (new : Bytes) × (fs : Fields) × (file ≡ some new)
    × (o.parse new ≡ some (object fs))
    × (find_field (codes "gemini_api_key") fs ≡ none)

-- Any file at all, also one of an older version with its key in the open, can be loaded and saved: if
-- the key can be sealed and the file written, this succeeds, the new file gives the same settings, and
-- it has no field with the plain key.
pub resave_dash_settings :
    (o : Outside) (old : Option Bytes)
    → ((load_dash_settings o old).gemini_api_key ≡ [])
      ⊎ IsSealable o (load_dash_settings o old).gemini_api_key
    → ((key : Fields)
        → key_fields o (load_dash_settings o old).gemini_api_key ≡ some key
        → Restores o (disk_fields (load_dash_settings o old) key))
    → let (file, ok) = save_dash_settings o true (load_dash_settings o old) old in
      (ok ≡ true) × (load_dash_settings o file ≡ load_dash_settings o old) × HoldsNoKey o file
unfolding save_dash_settings
resave_dash_settings o old seal restores =
    let s = load_dash_settings o old in
    let (key, (made, says, hidden)) = written_fields o s (load-IsInRange o old) seal in
    let (fs, parsed, same) = restores key made in
    let new = o.dump_2 (object (disk_fields s key)) in
    rw made (
      refl,
      load-parsed o new fs parsed ∙ settings_in-same o (disk_fields s key) fs same ∙ says,
      (new, fs, refl, parsed, same (codes "gemini_api_key") ∙ hidden),
    )
