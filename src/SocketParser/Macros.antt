-- ===== src/SocketParser/Macros.antt =====
-- socket_io_parser/src/macros.rs: `packet_data!`, as the expansion of its rules and the evaluation of
-- the code that they give.
pub mod Trees
pub mod Rules
pub mod Ends
pub mod Fuel
pub mod Literals
pub mod Expands
pub mod Arrays
pub mod Objects
pub mod Json
pub mod Values
use socket_io_server_rust.Prelude.{suc, Bool, true, ◌&&◌, if◌then◌else◌, Outcome, ok, panic}
use socket_io_server_rust.SocketParser.Packet.{PacketDataValue, ValueArray, ValueObject}
use socket_io_server_rust.SocketParser.Serializer.Values.{Numbers}
use socket_io_server_rust.SocketParser.Serializer as Serializer
use socket_io_server_rust.SocketParser.Serializer.{Error, ◌>>=◌, insert}
use socket_io_server_rust.SocketParser.Macros.Trees.{Tokens, weight, Rust}
use socket_io_server_rust.SocketParser.Macros.Rules.{
  Expansion, expanded, refused, out_of_fuel, Code, Vec, Inserts, internal,
}

-- `Result::unwrap`
abbrev pub unwrap : {A : Type 0} → Outcome Error A → Outcome Error A
unwrap (ok v) = ok v
unwrap _ = panic

module _ {numbers : Numbers} (rust : Rust numbers) where
  -- The value of the code. The constructors of `PacketDataValue` stand in the rules.
  unfoldable mutual
    unfolding insert

    pub eval : Code rust.Expr → Outcome Error (PacketDataValue numbers.Number)
    eval Code.null = ok PacketDataValue.null
    eval (Code.bool b) = ok (PacketDataValue.bool b)
    eval (Code.array elems) = do vec ← eval_vec elems; ok (PacketDataValue.array vec)
    eval Code.new_object = ok (PacketDataValue.object ValueObject.end)
    eval (Code.object inserts) = do
      object ← eval_inserts ValueObject.end inserts
      ok (PacketDataValue.object object)
    eval (Code.to_value other) = unwrap (Serializer.to_value (rust.term other))

    pub eval_vec : Vec rust.Expr → Outcome Error (ValueArray numbers.Number)
    eval_vec Vec.no_items = ok ValueArray.no_items
    eval_vec (Vec.item code elems) = do
      v ← eval code
      vec ← eval_vec elems
      ok (ValueArray.item v vec)

    -- The `IndexMap` goes along.
    pub eval_inserts :
        ValueObject numbers.Number → Inserts rust.Expr → Outcome Error (ValueObject numbers.Number)
    eval_inserts object Inserts.end = ok object
    eval_inserts object (Inserts.insert k code inserts) = do
      v ← eval code
      eval_inserts (insert k v object) inserts

  -- Whether the names in the code are found: those of an object that is not empty are the caller's.
  unfoldable mutual
    pub resolves : Code rust.Expr → Bool
    resolves Code.null = true
    resolves (Code.bool b) = true
    resolves (Code.array elems) = resolves_vec elems
    resolves Code.new_object = true
    resolves (Code.object inserts) = rust.in_scope && resolves_inserts inserts
    resolves (Code.to_value other) = true

    pub resolves_vec : Vec rust.Expr → Bool
    resolves_vec Vec.no_items = true
    resolves_vec (Vec.item code elems) = resolves code && resolves_vec elems

    pub resolves_inserts : Inserts rust.Expr → Bool
    resolves_inserts Inserts.end = true
    resolves_inserts (Inserts.insert k code inserts) = resolves code && resolves_inserts inserts

  -- The code is compiled, and run.
  unfoldable pub run :
      Expansion (Code rust.Expr) → Expansion (Outcome Error (PacketDataValue numbers.Number))
  unfolding eval resolves
  run (expanded code) = if resolves code then expanded (eval code) else refused
  run refused = refused
  run out_of_fuel = out_of_fuel

  -- `packet_data!($($json)+)`, as it is used: expanded and run, with fuel for every tree.
  unfoldable pub packet_data :
      Tokens rust.Atom → Expansion (Outcome Error (PacketDataValue numbers.Number))
  unfolding run internal weight
  packet_data json = run (internal rust (suc (weight json)) json)
