-- ===== src/SocketParser/Macros/Fuel.antt =====
-- socket_io_parser/src/macros.rs: the expansion ends.
use socket_io_server_rust.Prelude.{ℕ, ◌≤◌, ◌<◌}
use socket_io_server_rust.SocketParser.Serializer.Values.{Numbers}
use socket_io_server_rust.SocketParser.Macros.Trees.{Tokens, weight, Rust}
use socket_io_server_rust.SocketParser.Macros.Rules.{
  Code, Elements, internal, at_array, at_object, at_entry,
}
use socket_io_server_rust.SocketParser.Macros.Ends.{Ends}

module _ {numbers : Numbers} (rust : Rust numbers) where
  -- With this fuel each of the rules comes to an end on trees that weigh less.
  record Enough (f : ℕ) : Type 0 where
    internal_ends : (ts : Tokens rust.Atom) → weight ts ≤ f → 0 < f → Ends (internal rust f ts)
    array_ends :
        (elems : Elements) (ts : Tokens rust.Atom) → weight ts < f → Ends (at_array rust f elems ts)
    object_ends : (key ts : Tokens rust.Atom) → weight ts < f → Ends (at_object rust f key ts)
    entry_ends :
        (key : Tokens rust.Atom) (value : Code rust.Expr) (ts : Tokens rust.Atom)
        → weight ts < f
        → Ends (at_entry rust f key value ts)
