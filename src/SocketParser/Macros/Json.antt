-- ===== src/SocketParser/Macros/Json.antt =====
-- socket_io_parser/src/macros.rs: what the macro makes of a JSON literal.
use socket_io_server_rust.Prelude.{ℕ, zero, suc, Bool, ◌≡◌, arith}
use socket_io_server_rust.SocketParser.Json.{JsonValue}
use socket_io_server_rust.SocketParser.Serializer.Values.{Numbers}
use socket_io_server_rust.SocketParser.Macros.Trees.{Token, nil, ◌▸◌, weight, Rust}
use socket_io_server_rust.SocketParser.Macros.Rules.{expanded, internal}
use socket_io_server_rust.SocketParser.Macros.Ends.{weight-pos}
use socket_io_server_rust.SocketParser.Macros.Literals.{Literals, spelled, code}
use socket_io_server_rust.SocketParser.Macros.Expands.{Expands}
use socket_io_server_rust.SocketParser.Macros.Arrays.{
  internal-spelled, at_array-spelled, at_array-others,
}
use socket_io_server_rust.SocketParser.Macros.Objects.{
  at_object-key, at_object-field, at_entry-spelled,
}

module _ {numbers : Numbers} {rust : Rust numbers} (literals : Literals rust)
    (trailing : Bool) where
  abbrev token : JsonValue numbers.Number → Token rust.Atom
  token v = spelled literals trailing v

  all-Expands : (f : ℕ) → Expands literals trailing f
  all-Expands zero = record {
    values = λ v h. absurd (omega (arith, weight-pos (token v)));
    items = λ elems v xs i h. absurd (omega arith);
    more = λ xs h. absurd (omega arith);
    keys = λ k v obj h. absurd (omega arith);
    fields = λ k v obj h. absurd (omega arith);
    entries = λ k value obj h. absurd (omega arith);
  }
  all-Expands (suc f) = record {
    values = λ v h. internal-spelled literals trailing f (all-Expands f) v h;
    items = λ elems v xs i h.
        at_array-spelled literals trailing f (all-Expands f) elems v xs i (omega arith);
    more = λ xs h. at_array-others literals trailing f (all-Expands f) xs (omega arith);
    keys = λ k v obj h. at_object-key literals trailing f (all-Expands f) k v obj (omega arith);
    fields = λ k v obj h. at_object-field literals trailing f (all-Expands f) k v obj (omega arith);
    entries = λ k value obj h.
        at_entry-spelled literals trailing f (all-Expands f) k value obj (omega arith);
  }

  -- A literal expands to its code.
  pub internal-literal :
      (v : JsonValue numbers.Number)
      → internal rust (suc (weight (token v ▸ nil))) (token v ▸ nil)
        ≡ expanded (code literals trailing v)
  unfolding weight
  internal-literal v = (all-Expands (suc (weight (token v ▸ nil)))).values v (omega arith)
