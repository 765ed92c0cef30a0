-- ===== src/EngineParser/Base64.antt =====
-- The `base64` crate, which engine_io_parser/src/string.rs calls: text and back.
use socket_io_server_rust.Prelude.{Bytes, Str, Option, some, ◌≡◌}

pub record Base64 : Type 0 where
  pub encode : Bytes → Str
  pub decode : Str → Option Bytes
  pub decode-encode : (data' : Bytes) → decode (encode data') ≡ some data'
