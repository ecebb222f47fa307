-- ===== src/Device/Examples.antt =====
-- The theorems on device.id at a broken file, a new name and a dashboard.
use just_in_time.Prelude.{
  ◌≡◌, refl, true, false, none, some, Option, [], ◌∷◌, ◌++◌, arith, Bytes, codes, lines,
}
use just_in_time.Settings.{trim_newline}
use just_in_time.Device.{
  Device, load_or_create, restarted, device_get_label, load_config, display_label, trim_blanks,
  label_or_default, port_of, port_value,
}
use just_in_time.Device.Stays.{IsId, Stays, id_stays}
use just_in_time.Device.Shared.{dashboard_agrees}

abbrev new_id : Bytes
new_id = codes "PC-0A1B2C3D"

new_id-IsId : IsId new_id
new_id-IsId = record { form = refl; no_end = omega arith; no_return = omega arith }

-- The first line is no id, and the second line is a name.
abbrev broken : Option Bytes
broken = some (codes "PC" ++ 13 ∷ 10 ∷ codes "Desk")

id_stays_example :
    let d = load_or_create true true new_id (restarted broken) in
    load_or_create true false (codes "PC-FFFFFFFF") (restarted d.file) ≡ d
id_stays_example = id_stays false new_id (codes "PC-FFFFFFFF") broken new_id-IsId

abbrev on_disk : Device
on_disk = record { loaded = true; id = new_id; label = []; file = some (new_id ++ 10 ∷ 10 ∷ []) }

on_disk-Stays : Stays on_disk
on_disk-Stays = record { loaded = refl; form = refl; parsed = unfold lines trim_newline in refl }

dashboard_agrees_example :
    let (cfg, file) = load_config true [] none none on_disk.file in
    (cfg.device_id ≡ new_id)
    × (display_label file cfg ≡ label_or_default [] new_id)
    × (file ≡ on_disk.file)
dashboard_agrees_example =
    dashboard_agrees true [] none on_disk on_disk-Stays (unfold trim_blanks in refl)
      (unfold trim_blanks in refl)

default_name : (device_get_label true true [] 10 on_disk).1 ≡ codes "Computer "
unfolding device_get_label load_or_create
default_name = refl

bad_port : port_of (some (codes "80x")) ≡ 5000
unfolding port_value
bad_port = refl
