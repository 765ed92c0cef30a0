-- ===== src/SocketParser/Json.antt =====
-- The `Value` of the `serde_json` crate, which the code matches on, and what the code takes from the
-- crate, as an interface with the laws of its documentation. A map is the list of its entries, in the
-- order in which it is iterated, with distinct keys.
use Prim.Native.Char.{code}
use Prim.Native.String.{String}
use socket_io_server_rust.Prelude.{
  ℕ, ◌<◌, ◌==◌, ◌&&◌, ◌≡◌, refl, ap, ◌∙◌, ==_iff, arith, Bool, true, false, if◌then◌else◌, Option,
  none, some, [], ◌∷◌, Str, usize_bound,
}

-- The characters of a literal.
abbrev pub chars : String → Str
chars String.[] = []
chars (String.◌∷◌ c s) = code c ∷ chars s

and_true : (a b : Bool) → (a && b) ≡ true → (a ≡ true) × (b ≡ true)
and_true a b h = ground arith

abbrev pub same : Str → Str → Bool
same [] [] = true
same [] (_ ∷ _) = false
same (_ ∷ _) [] = false
same (c ∷ s) (d ∷ t) = (c == d) && same s t

pub same_refl : (s : Str) → same s s ≡ true
same_refl [] = refl
same_refl (c ∷ s) = rw (same_refl s) (ground arith)

pub same_comm : (s t : Str) → same s t ≡ same t s
same_comm [] [] = refl
same_comm [] (d ∷ t) = refl
same_comm (c ∷ s) [] = refl
same_comm (c ∷ s) (d ∷ t) = rw (same_comm s t) (ground arith)

pub same→eq : (s t : Str) → same s t ≡ true → s ≡ t
same→eq [] [] h = refl
same→eq [] (d ∷ t) h = cc
same→eq (c ∷ s) [] h = cc
same→eq (c ∷ s) (d ∷ t) h =
    let (hc, hs) = and_true (c == d) (same s t) h in
    ap (λ x. x ∷ s) ((==_iff c d).0 hc) ∙ ap (λ x. d ∷ x) (same→eq s t hs)

mutual
  pub data JsonValue (N : Type 0) : Type 0 where
    null : JsonValue N
    bool : Bool → JsonValue N
    number : N → JsonValue N
    string : Str → JsonValue N
    array : JsonArray N → JsonValue N
    object : JsonObject N → JsonValue N

  pub data JsonArray (N : Type 0) : Type 0 where
    no_items : JsonArray N
    item : JsonValue N → JsonArray N → JsonArray N

  pub data JsonObject (N : Type 0) : Type 0 where
    end : JsonObject N
    entry : Str → JsonValue N → JsonObject N → JsonObject N

-- `serde_json::Map::get`
abbrev pub get : {N : Type 0} → Str → JsonObject N → Option (JsonValue N)
get key end = none
get key (entry k v obj) = if same k key then some v else get key obj

pub record Json : Type 1 where
  pub Number : Type 0
  pub as_u64 : Number → Option ℕ
  pub from_u64 : ℕ → Number
  pub as_u64-from : (n : ℕ) → n < usize_bound → as_u64 (from_u64 n) ≡ some n
  pub to_string : JsonValue Number → Str
  pub from_str : Str → Option (JsonValue Number)
