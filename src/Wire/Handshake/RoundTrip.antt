-- ===== src/Wire/Handshake/RoundTrip.antt =====
-- src/wire/protocol.rs: the handshake that a client sends is what `parse_client_handshake` reads.
use rusty_db.Prelude.{
  ℕ, ◌^◌, ◌<◌, true, false, Option, some, [], ◌∷◌, ◌++◌, append_assoc, ltb, le→ltb, length, drop,
  take-append, drop-append, length-append, All, ok, ◌≡◌, ◌≢◌, sym, ap, ◌∙◌, arith,
}
use rusty_db.Wire.Utf8.{IsUtf8}
use rusty_db.Wire.Bytes.{Bytes, le_bytes, of_le_bytes-le_bytes, take-le_bytes}
use rusty_db.Wire.Lenenc.{
  encode_lenenc_int, encode_lenenc_str, read_lenenc_int-encode_lenenc_int, split_at_zero-append,
}
use rusty_db.Wire.Handshake.{
  client_connect_with_db, client_plugin_auth, client_plugin_auth_lenenc_client_data, has_flag,
  is_empty, read_optional, lenenc_auth, read_auth, after_auth, parse_client_handshake,
}

abbrev pub HasNoZero : Bytes → Type 0
HasNoZero s = All (λ b. b ≢ 0) s

-- A HandshakeResponse41 with a database, a plugin and a length-encoded response.
unfoldable pub handshake_response : ℕ → Bytes → Bytes → Bytes → Bytes → Bytes → Bytes
handshake_response capabilities skipped name auth db plugin =
    let last = plugin ++ 0 ∷ [] in
    let rest = encode_lenenc_str auth ++ (db ++ 0 ∷ last) in
    le_bytes 4 capabilities ++ (skipped ++ (name ++ 0 ∷ rest))

read_optional-append :
    (b : ℕ) (s rest : Bytes)
    → HasNoZero (b ∷ s)
    → IsUtf8 (b ∷ s)
    → read_optional true ((b ∷ s) ++ 0 ∷ rest) ≡ (some (b ∷ s), rest)
unfolding read_optional is_empty
read_optional-append b s rest h utf8 = rw (split_at_zero-append (b ∷ s) rest h, utf8)

after_auth-texts :
    (capabilities : ℕ) (name auth bs bs' rest : Bytes) (db plugin : Option Bytes)
    → read_optional (has_flag capabilities client_connect_with_db) bs ≡ (db, bs')
    → read_optional (has_flag capabilities client_plugin_auth) bs' ≡ (plugin, rest)
    → after_auth capabilities name (ok (auth, bs))
      ≡ ok (record {
        capabilities = capabilities;
        username = name;
        auth_response = auth;
        database = db;
        auth_plugin = plugin;
      })
unfolding after_auth
after_auth-texts capabilities name auth bs bs' rest db plugin h₁ h₂ = rw (h₁, h₂)

read_auth-append :
    (capabilities : ℕ) (auth rest : Bytes)
    → has_flag capabilities client_plugin_auth_lenenc_client_data ≡ true
    → length auth < 2 ^ 64
    → read_auth capabilities (encode_lenenc_str auth ++ rest) ≡ ok (auth, rest)
unfolding read_auth lenenc_auth encode_lenenc_str
read_auth-append capabilities auth rest flag fits = rw (
  flag,
  append_assoc (encode_lenenc_int (length auth)) auth rest,
  read_lenenc_int-encode_lenenc_int (length auth) (auth ++ rest) fits,
  le→ltb (length (auth ++ rest)) (length auth) (omega (arith, length-append auth rest)),
  take-append auth rest,
  drop-append auth rest,
)

drop_skipped :
    (capabilities : ℕ) (skipped rest : Bytes)
    → length skipped ≡ 28
    → drop 32 (le_bytes 4 capabilities ++ (skipped ++ rest)) ≡ rest
unfolding le_bytes
drop_skipped capabilities skipped rest h =
    ap (λ (n : ℕ). drop n (skipped ++ rest)) (sym h) ∙ drop-append skipped rest

long_enough :
    (capabilities : ℕ) (skipped rest : Bytes)
    → length skipped ≡ 28
    → ltb (length (le_bytes 4 capabilities ++ (skipped ++ rest))) 32 ≡ false
unfolding le_bytes
long_enough capabilities skipped rest h =
    le→ltb (length (le_bytes 4 capabilities ++ (skipped ++ rest))) 32
      (omega (arith, length-append skipped rest, h))

-- A handshake whose flags announce a database, a plugin and a length-encoded response, with texts
-- of UTF-8 that hold no zero byte, a database and a plugin that are not empty, and lengths within
-- `u64`, is read back as it was sent.
pub parse_client_handshake-handshake_response :
    (capabilities : ℕ) (skipped name auth : Bytes) (b : ℕ) (db : Bytes) (p : ℕ) (plugin : Bytes)
    → capabilities < 2 ^ 32
    → length skipped ≡ 28
    → length auth < 2 ^ 64
    → has_flag capabilities client_plugin_auth_lenenc_client_data ≡ true
    → has_flag capabilities client_connect_with_db ≡ true
    → has_flag capabilities client_plugin_auth ≡ true
    → HasNoZero name
    → IsUtf8 name
    → HasNoZero (b ∷ db)
    → IsUtf8 (b ∷ db)
    → HasNoZero (p ∷ plugin)
    → IsUtf8 (p ∷ plugin)
    → parse_client_handshake
        (handshake_response capabilities skipped name auth (b ∷ db) (p ∷ plugin))
      ≡ ok (record {
        capabilities = capabilities;
        username = name;
        auth_response = auth;
        database = some (b ∷ db);
        auth_plugin = some (p ∷ plugin);
      })
unfolding parse_client_handshake handshake_response
parse_client_handshake-handshake_response capabilities skipped name auth b db p plugin small len
      fits f₁ f₂ f₃ hn un hb ub hp up =
    let tail = (p ∷ plugin) ++ 0 ∷ [] in
    let rest = encode_lenenc_str auth ++ ((b ∷ db) ++ 0 ∷ tail) in
    let body = skipped ++ (name ++ 0 ∷ rest) in
    rw (
      long_enough capabilities skipped (name ++ 0 ∷ rest) len,
      take-le_bytes 4 capabilities body,
      of_le_bytes-le_bytes 4 capabilities small,
      drop_skipped capabilities skipped (name ++ 0 ∷ rest) len,
      split_at_zero-append name rest hn,
      un,
      read_auth-append capabilities auth ((b ∷ db) ++ 0 ∷ tail) f₁ fits,
      after_auth-texts capabilities name auth ((b ∷ db) ++ 0 ∷ tail) tail [] (some (b ∷ db))
          (some (p ∷ plugin)) (rw f₂ (read_optional-append b db tail hb ub))
          (rw f₃ (read_optional-append p plugin [] hp up)),
    )
