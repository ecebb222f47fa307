-- ===== src/Dashboard/Examples.antt =====
-- The dashboard's files with a stand-in for DPAPI that puts one byte in front of a text, and a reader and
-- writer of JSON for the two files that occur.
use just_in_time.Prelude.{
  ◌≡◌, refl, sym, ap, ◌∙◌, true, Option, none, some, [], ◌∷◌, Bytes, codes, bytes_eq, if◌then◌else◌,
  inr,
}
use just_in_time.Auth.{Dpapi}
use just_in_time.Cloud.{text, object, Fields, no_fields, field, find_field}
use just_in_time.Dashboard.{
  DashSettings, Outside, default_settings, settings_in, key_in, load_dash_settings, disk_fields,
  key_fields, save_dash_settings,
}
use just_in_time.Dashboard.Settings.{HoldsNoKey, Restores, IsSealable, resave_dash_settings}

abbrev without_first : Bytes → Option Bytes
without_first [] = none
without_first (c ∷ s) = some s

abbrev one_byte : Dpapi
one_byte = record { protect = λ s. some (255 ∷ s); unprotect = without_first }

abbrev old_fields : Fields
old_fields = field (codes "gemini_api_key") (text (codes "K1")) no_fields

abbrev with_key : DashSettings
with_key = record default_settings { gemini_api_key = codes "K1" }

abbrev sealed : Fields
sealed = field (codes "gemini_api_key_enc") (text (255 ∷ codes "K1")) no_fields

abbrev two_files : Outside
two_files = record {
  parse = λ s.
      some (object (if bytes_eq s (codes "new") then disk_fields with_key sealed else old_fields));
  dump_2 = λ v. codes "new";
  dpapi = one_byte;
  encode = λ s. s;
  decode = λ s. some s;
}

abbrev old : Option Bytes
old = some (codes "old")

loaded : load_dash_settings two_files old ≡ with_key
unfolding load_dash_settings settings_in key_in find_field
loaded = refl

sealable : IsSealable two_files (load_dash_settings two_files old).gemini_api_key
sealable = rw loaded (record {
  first = b'K';
  more = b'1' ∷ [];
  shape = refl;
  c = 255;
  enc = codes "K1";
  d = 255;
  b64 = codes "K1";
  protected = refl;
  encoded = refl;
  decoded = refl;
  opened = refl;
})

restored :
    (key : Fields)
    → key_fields two_files (load_dash_settings two_files old).gemini_api_key ≡ some key
    → Restores two_files (disk_fields (load_dash_settings two_files old) key)
restored key made =
    let written : some sealed ≡ some key =
      ap (λ x. key_fields two_files x.gemini_api_key) (sym loaded) ∙ made in
    let same : sealed ≡ key = cc in
    rw loaded
      (disk_fields with_key sealed, refl, λ k. ap (λ x. find_field k (disk_fields with_key x)) same)

resave_dash_settings_example :
    let (file, ok) = save_dash_settings two_files true (load_dash_settings two_files old) old in
    (ok ≡ true)
    × (load_dash_settings two_files file ≡ load_dash_settings two_files old)
    × HoldsNoKey two_files file
resave_dash_settings_example = resave_dash_settings two_files old (inr sealable) restored
