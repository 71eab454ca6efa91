-- ===== src/Wire/Examples.antt =====
-- The theorems on the wire protocol at concrete inputs.
use rusty_db.Prelude.{ℕ, [], ◌∷◌, ◌++◌, some, ok, replicate, ◌≡◌, refl, arith}
use rusty_db.Wire.Bytes.{Bytes}
use rusty_db.Wire.Utf8.{decode, from_utf8_lossy, IsUtf8, replacement}
use rusty_db.Wire.Lenenc.{
  encode_lenenc_int, read_lenenc_int, read_null_terminated, read_lenenc_int-encode_lenenc_int,
  read_null_terminated-append,
}
use rusty_db.Wire.Handshake.{parse_client_handshake}
use rusty_db.Wire.Handshake.RoundTrip.{
  HasNoZero, handshake_response, parse_client_handshake-handshake_response,
}

read_lenenc_int-encode_lenenc_int_example :
    read_lenenc_int (encode_lenenc_int 70000 ++ 9 ∷ []) ≡ (some 70000, 9 ∷ [])
read_lenenc_int-encode_lenenc_int_example =
    read_lenenc_int-encode_lenenc_int 70000 (9 ∷ []) (omega arith)

abbrev root : Bytes
root = b'r' ∷ b't' ∷ []

root-HasNoZero : HasNoZero root
root-HasNoZero = ((λ e. omega arith), ((λ e. omega arith), tt))

root-IsUtf8 : IsUtf8 root
unfolding decode
root-IsUtf8 = refl

-- A byte that no character begins with is replaced, as is one whose character breaks off.
lossy :
    from_utf8_lossy (0xFF ∷ 0xC3 ∷ b'a' ∷ 0xC3 ∷ 0xA9 ∷ [])
    ≡ replacement ++ replacement ++ b'a' ∷ 0xC3 ∷ 0xA9 ∷ []
unfolding decode
lossy = refl

read_null_terminated-append_example : read_null_terminated (root ++ 0 ∷ 7 ∷ []) ≡ (root, 7 ∷ [])
read_null_terminated-append_example =
    read_null_terminated-append root (7 ∷ []) root-HasNoZero root-IsUtf8

abbrev flags : ℕ
flags = 0x280008

parse_client_handshake-handshake_response_example :
    parse_client_handshake
      (handshake_response flags (replicate 28 0) root (1 ∷ 0 ∷ 255 ∷ []) root root)
    ≡ ok (record {
      capabilities = flags;
      username = root;
      auth_response = 1 ∷ 0 ∷ 255 ∷ [];
      database = some root;
      auth_plugin = some root;
    })
parse_client_handshake-handshake_response_example =
    parse_client_handshake-handshake_response flags (replicate 28 0) root (1 ∷ 0 ∷ 255 ∷ []) b'r'
      (b't' ∷ []) b'r' (b't' ∷ []) (omega arith) refl (omega arith) refl refl refl root-HasNoZero
      root-IsUtf8 root-HasNoZero root-IsUtf8 root-HasNoZero root-IsUtf8
