-- ===== src/State/Devices.antt =====
-- internal/state/device.go: the phones that are paired with the board.
use hand.Base.{
  Bool, List, Option, Text, [], byte_len, codes, decimal, find, if◌then◌else◌, invalid, is_control,
  is_empty, leb, length, ltb, none, not, not_found, one_line, select, some, take, text_eq, true, ℕ,
  ◌&&◌, ◌++◌, ◌+◌, ◌==◌, ◌||◌, ◌∷◌,
}
use hand.State.Schema.{Db, Device}
use hand.State.Transactions.{M, exec, pure, query, query_row, refuse, ◌>>=◌, ◌>>◌}
use hand.State.Events.{append_event, emit}

abbrev pub max_device_name : ℕ
max_device_name = 40

abbrev pub max_device_login : ℕ
max_device_login = 254

abbrev pub phone_label_len : ℕ
phone_label_len = 16

abbrev pub is_lower_hex : ℕ → Bool
is_lower_hex c = (leb b'0' c && leb c b'9') || (leb b'a' c && leb c b'f')

unfoldable pub all_hex : Text → Bool
all_hex [] = true
all_hex (c ∷ s) = is_lower_hex c && all_hex s

-- validPhoneLabel and ValidPhoneLabel. The loop sees ASCII alone, so bytes are characters there.
unfoldable pub valid_phone_label : Text → Bool
unfolding byte_len all_hex
valid_phone_label s = is_empty s || (byte_len s == phone_label_len && all_hex s)

unfoldable pub is_phone_label : Text → Bool
unfolding valid_phone_label
is_phone_label s = not (is_empty s) && valid_phone_label s

unfoldable pub blank_controls : Text → Text
unfolding is_control
blank_controls [] = []
blank_controls (c ∷ s) = (if is_control c then 32 else c) ∷ blank_controls s

-- cleanDeviceText.
unfoldable pub clean_device_text : Text → ℕ → Text
unfolding blank_controls one_line
clean_device_text s most =
    let line = one_line (blank_controls s) in
    if ltb most (length line) then take most line else line

-- Device.detail.
unfoldable pub device_detail : Device → Text
unfolding decimal
device_detail d = decimal d.id ++ 32 ∷ d.name

unfoldable pub insert_device : Device → Db → Db
insert_device d db = record db { devices = db.devices ++ d ∷ []; device_seq = db.device_seq + 1 }

unfoldable pub device_name : Text → Text
unfolding clean_device_text
device_name name =
    let cleaned = clean_device_text name max_device_name in
    if is_empty cleaned then codes "Phone" else cleaned

-- Store.AddDevice. The key is AUTOINCREMENT.
unfoldable pub add_device : Text → Text → Text → Text → ℕ → M Device
unfolding byte_len valid_phone_label device_name clean_device_text insert_device append_event
    device_detail
add_device name login secret_hash phone now = do
  refuse (not (byte_len secret_hash == 64)) invalid
  refuse (not (valid_phone_label phone)) invalid
  seq ← query (λ db. db.device_seq)
  let d : Device = record {
    id = seq + 1;
    name = device_name name;
    login = clean_device_text login max_device_login;
    secret_hash = secret_hash;
    paired_at = now;
    phone = phone;
  }
  exec (insert_device d)
  emit now (codes "board.paired") 0 (device_detail d)
  pure d

-- Store.DeviceWithSecret.
unfoldable pub device_with_secret : ℕ → Text → Db → Option Device
unfolding text_eq
device_with_secret id secret_hash db = elim (find (λ (d : Device). d.id == id) db.devices) [
  | none ↦ none
  | some d ↦ if text_eq d.secret_hash secret_hash then some d else none
]

unfoldable pub delete_device : ℕ → Db → Db
delete_device id db = record db { devices = select (λ (d : Device). not (d.id == id)) db.devices }

-- Store.RevokeDevice.
unfoldable pub revoke_device : ℕ → ℕ → M Device
unfolding delete_device append_event device_detail
revoke_device id now = do
  d ← query_row (λ db. find (λ (d : Device). d.id == id) db.devices) not_found
  exec (delete_device id)
  emit now (codes "board.revoked") 0 (device_detail d)
  pure d

unfoldable pub append_revoked : ℕ → List Device → Db → Db
unfolding append_event device_detail
append_revoked now [] db = db
append_revoked now (d ∷ ds) db =
    append_revoked now ds (append_event now (codes "board.revoked") 0 (device_detail d) db)

abbrev pub is_phone : Text → Device → Bool
is_phone label d = text_eq d.phone label

unfoldable pub delete_phone : Text → Db → Db
unfolding text_eq
delete_phone label db = record db {
  devices = select (λ (d : Device). not (is_phone label d)) db.devices;
}

-- Store.RevokePhone: every device of the phone, in the order of the ids.
unfoldable pub revoke_phone : Text → ℕ → M (List Device)
unfolding is_phone_label text_eq delete_phone append_revoked
revoke_phone label now = do
  refuse (not (is_phone_label label)) invalid
  out ← query (λ db. select (is_phone label) db.devices)
  exec (delete_phone label)
  exec (append_revoked now out)
  pure out
