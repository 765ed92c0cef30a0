-- ===== src/SocketParser/Serializer/Values.antt =====
-- The calls that a value's implementation of `serde::Serialize` makes on a serializer: one constructor
-- for each method of the trait, with the arguments of the call, and the calls on the parts inside it.
use socket_io_server_rust.Prelude.{ℕ, ◌+◌, Bool, Option, Str, Bytes, ◌∷◌, to_string}

-- A signed machine integer.
pub data ℤ : Type 0 where
  pos negsuc : ℕ → ℤ

-- `ToString` of a signed integer.
unfoldable pub signed_to_string : ℤ → Str
unfolding to_string
signed_to_string (pos n) = to_string n
signed_to_string (negsuc n) = b'-' ∷ to_string (n + 1)

-- `serde_json::Number`, the floats and the allocator, as parameters. `from_f64` has nothing for what is not
-- finite. `max_capacity` is how many values a `Vec` can be given room for: `isize::MAX` bytes of them.
pub record Numbers : Type 1 where
  pub Number : Type 0
  pub F32 : Type 0
  pub F64 : Type 0
  pub from_i64 : ℤ → Number
  pub from_u64 : ℕ → Number
  pub from_f64 : F64 → Option Number
  pub as_f64 : F32 → F64
  pub max_capacity : ℕ

mutual
  pub data Term (numbers : Numbers) : Type 0 where
    bool : Bool → Term numbers
    i8 i16 i32 i64 : ℤ → Term numbers
    u8 u16 u32 u64 : ℕ → Term numbers
    f32 : numbers.F32 → Term numbers
    f64 : numbers.F64 → Term numbers
    char : ℕ → Term numbers
    str : Str → Term numbers
    bytes : Bytes → Term numbers
    unit : Term numbers
    unit_struct : (name : Str) → Term numbers
    unit_variant : (name : Str) → (variant_index : ℕ) → (variant : Str) → Term numbers
    newtype_struct : (name : Str) → Term numbers → Term numbers
    newtype_variant :
        (name : Str) → (variant_index : ℕ) → (variant : Str) → Term numbers → Term numbers
    absent : Term numbers
    present : Term numbers → Term numbers
    seq : (len : Option ℕ) → Terms numbers → Term numbers
    tuple : (len : ℕ) → Terms numbers → Term numbers
    tuple_struct : (name : Str) → (len : ℕ) → Terms numbers → Term numbers
    tuple_variant :
        (name : Str)
        → (variant_index : ℕ) → (variant : Str) → (len : ℕ) → Terms numbers
        → Term numbers
    map : (len : Option ℕ) → Calls numbers → Term numbers
    struct : (name : Str) → (len : ℕ) → Fields numbers → Term numbers
    struct_variant :
        (name : Str)
        → (variant_index : ℕ) → (variant : Str) → (len : ℕ) → Fields numbers
        → Term numbers
    collect_str : Str → Term numbers
    -- An error of the implementation's own.
    custom : Term numbers

  pub data Terms (numbers : Numbers) : Type 0 where
    no_terms : Terms numbers
    element : Term numbers → Terms numbers → Terms numbers

  -- The calls on a `SerializeMap`, up to `end`, in any order.
  pub data Calls (numbers : Numbers) : Type 0 where
    end : Calls numbers
    key : Term numbers → Calls numbers → Calls numbers
    value : Term numbers → Calls numbers → Calls numbers

  pub data Fields (numbers : Numbers) : Type 0 where
    no_fields : Fields numbers
    field : (key : Str) → Term numbers → Fields numbers → Fields numbers
