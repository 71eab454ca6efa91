-- ===== src/Wire/Handshake.antt =====
-- src/wire/protocol.rs: `parse_client_handshake`, on the bytes of a HandshakeResponse41.
-- A text is its bytes.
pub mod RoundTrip
use rusty_db.Prelude.{
  ℕ, suc, ◌+◌, ◌*◌, ◌/◌, ◌%◌, ◌^◌, ◌<◌, ◌≤◌, min, Bool, true, false, ◌&&◌, not, Option, none, some,
  List, [], ◌∷◌, ◌++◌, append_assoc, ltb, ◌==◌, le→ltb, if◌then◌else◌, length, take, drop,
  take-append, drop-append, length-append, All, Result, ok, err, Bool-cases, inl, inr, ◌≡◌, ◌≢◌,
  refl, sym, ap, ◌∙◌, arith,
}
use rusty_db.Wire.Bytes.{Bytes, le_bytes, of_le_bytes, read_le, read_le-le_bytes}
use rusty_db.Wire.Lenenc.{
  encode_lenenc_int, encode_lenenc_str, read_lenenc_int, split_at_zero, read_null_terminated,
  read_lenenc_int-encode_lenenc_int, read_null_terminated-append,
}

pub record ClientHandshake : Type 0 where
  pub capabilities : ℕ
  pub username : Bytes
  pub auth_response : Bytes
  pub database : Option Bytes
  pub auth_plugin : Option Bytes

pub data HandshakeError : Type 0 where
  too_short invalid_auth_length auth_too_long : HandshakeError

abbrev pub client_connect_with_db : ℕ
client_connect_with_db = 0x8

abbrev pub client_secure_connection : ℕ
client_secure_connection = 0x8000

abbrev pub client_plugin_auth : ℕ
client_plugin_auth = 0x80000

abbrev pub client_plugin_auth_lenenc_client_data : ℕ
client_plugin_auth_lenenc_client_data = 0x200000

-- `capabilities & flag != 0` for a flag of one bit
abbrev pub has_flag : ℕ → ℕ → Bool
has_flag capabilities flag = not (capabilities / flag % 2 == 0)

is_empty : Bytes → Bool
is_empty [] = true
is_empty (_ ∷ _) = false

-- An optional text at the end: absent without its flag, without bytes, or when it is empty.
read_optional : Bool → Bytes → Option Bytes × Bytes
unfolding read_null_terminated is_empty
read_optional present bs =
    let (s, rest) = read_null_terminated bs in
    if present && not (is_empty bs) then (if is_empty s then none else some s, rest) else (none, bs)

lenenc_auth : Option ℕ × Bytes → Result HandshakeError (Bytes × Bytes)
lenenc_auth (none, bs) = err invalid_auth_length
lenenc_auth (some n, bs) =
    if ltb (length bs) n then err auth_too_long else ok (take n bs, drop n bs)

-- A length byte; the response is cut at the end of the packet.
secure_auth : Bytes → Bytes × Bytes
secure_auth [] = ([], [])
secure_auth (n ∷ bs) = (take (min n (length bs)) bs, drop (min n (length bs)) bs)

read_auth : ℕ → Bytes → Result HandshakeError (Bytes × Bytes)
unfolding lenenc_auth secure_auth read_lenenc_int split_at_zero
read_auth capabilities bs =
    if has_flag capabilities client_plugin_auth_lenenc_client_data
    then lenenc_auth (read_lenenc_int bs)
    else if has_flag capabilities client_secure_connection
    then ok (secure_auth bs)
    else ok (split_at_zero bs)

after_auth :
    ℕ → Bytes → Result HandshakeError (Bytes × Bytes) → Result HandshakeError ClientHandshake
unfolding read_optional
after_auth capabilities name (err e) = err e
after_auth capabilities name (ok (auth, bs)) =
    let (db, after_db) = read_optional (has_flag capabilities client_connect_with_db) bs in
    let (plugin, rest) = read_optional (has_flag capabilities client_plugin_auth) after_db in
    ok (record {
      capabilities = capabilities;
      username = name;
      auth_response = auth;
      database = db;
      auth_plugin = plugin;
    })

-- Behind the capabilities stand 28 bytes that are skipped.
unfoldable pub parse_client_handshake : Bytes → Result HandshakeError ClientHandshake
unfolding of_le_bytes read_null_terminated read_auth after_auth
parse_client_handshake bs =
    let capabilities = of_le_bytes (take 4 bs) in
    let (name, rest) = read_null_terminated (drop 32 bs) in
    if ltb (length bs) 32
    then err too_short
    else after_auth capabilities name (read_auth capabilities rest)
