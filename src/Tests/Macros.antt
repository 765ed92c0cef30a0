-- ===== src/Tests/Macros.antt =====
-- socket_io_parser/src/macros.rs: runs, and the theorems at concrete inputs.
use socket_io_server_rust.Prelude.{ℕ, ◌<◌, ◌≡◌, refl, true, Option, none, some, Str, ok, arith}
use socket_io_server_rust.SocketParser.Json.{chars}
use socket_io_server_rust.SocketParser.Packet.{PacketDataValue, ValueArray}
use socket_io_server_rust.SocketParser.Serializer.Values.{Term}
use socket_io_server_rust.SocketParser.Serializer.{to_value}
use socket_io_server_rust.SocketParser.Serializer.Json.{pos_int}
use socket_io_server_rust.SocketParser.Macros.Trees.{
  comma, other, bracket, brace, Tokens, nil, ◌▸◌, weight, Rust,
}
use socket_io_server_rust.SocketParser.Macros.Rules.{expanded, refused}
use socket_io_server_rust.SocketParser.Macros.{packet_data}
use socket_io_server_rust.SocketParser.Macros.Literals.{Literals}
use socket_io_server_rust.Tests.Serializer.{numbers}

-- Expressions that are one literal.
data Literal : Type 0 where
  number : ℕ → Literal
  string : Str → Literal

parse_literal : Tokens Literal → Option (Literal × Tokens Literal)
parse_literal (other a ▸ rest) = some (a, rest)
parse_literal _ = none

parse_literal-weight :
    (ts : Tokens Literal) (e : Literal) (rest : Tokens Literal)
    → parse_literal ts ≡ some (e, rest)
    → weight rest < weight ts
unfolding parse_literal weight
parse_literal-weight (other a ▸ ts) e rest h = ground arith
parse_literal-weight nil e rest h = cc
parse_literal-weight _ e rest h = cc

literal_key : Tokens Literal → Option Str
literal_key (other (string s) ▸ nil) = some s
literal_key _ = none

literal_term : Literal → Term numbers
literal_term (number n) = Term.u64 n
literal_term (string s) = Term.str s

abbrev rust : Rust numbers
rust = record {
  Atom = Literal;
  Expr = Literal;
  parse_expr = parse_literal;
  parse_expr-weight = parse_literal-weight;
  key = literal_key;
  term = literal_term;
  in_scope = true;
}

abbrev literals : Literals rust
unfolding parse_literal literal_key literal_term to_value
literals = record {
  number = number;
  number_expr = number;
  parse_expr-number = λ n rest h. refl;
  forms = record { form = pos_int; of_form-form = λ n. refl };
  term-number = λ n. refl;
  string = string;
  string_expr = string;
  parse_expr-string = λ s rest h. refl;
  term-string = λ s. refl;
  key-string = λ s. refl;
}

-- `[, 1]` is accepted, and read as `[1]`.
leading_comma_run :
    packet_data rust (bracket (comma ▸ other (number 1) ▸ nil) ▸ nil)
    ≡ expanded (
        ok (PacketDataValue.array (ValueArray.item (PacketDataValue.number 1) ValueArray.no_items)))
unfolding packet_data to_value parse_literal literal_term
leading_comma_run = refl

-- `{"a" 1}` has no colon, and `[1 2]` no comma.
no_colon_run :
    packet_data rust (brace (other (string (chars "a")) ▸ other (number 1) ▸ nil) ▸ nil) ≡ refused
unfolding packet_data parse_literal
no_colon_run = refl

no_comma_run :
    packet_data rust (bracket (other (number 1) ▸ other (number 2) ▸ nil) ▸ nil) ≡ refused
unfolding packet_data parse_literal
no_comma_run = refl
