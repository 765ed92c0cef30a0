-- ===== src/SocketServer/Server/Descriptors.antt =====
-- socket_io_server/src/server.rs: namespaces by their descriptors, and what is kept of them.
use socket_io_server_rust.Prelude.{
  ℕ, Bool, false, Bool-cases, inl, inr, if◌then◌else◌, some, List, [], ◌∷◌, ◌≡◌, ◌≢◌, refl, ap, sym,
  ◌∙◌, Str,
}
use socket_io_server_rust.SocketParser.Json.{Json, same, same_refl, same→eq, same_comm}
use socket_io_server_rust.SocketParser.Packet.{PacketDataValue}
use socket_io_server_rust.SocketServer.Storage.{Storage}
use socket_io_server_rust.SocketServer.Namespace as Namespace
use socket_io_server_rust.SocketServer.Namespace.{SimpleNamespace}
use socket_io_server_rust.SocketServer.Connection.{find, delete, insert}
use socket_io_server_rust.SocketServer.Server.State.{new, existing, Shared}
use socket_io_server_rust.SocketServer.Server.Operations.{
  with_slash, get_or_create_namespace, make_dynamic_namespace,
}

pub record ServerOptions : Type 0 where
  pub connect_timeout : ℕ
  pub buffer_factor : ℕ

-- `ServerOptions::default`
abbrev pub default_options : ServerOptions
default_options = record { connect_timeout = 45000; buffer_factor = 2 }

-- A regular expression is its test, `Regex::is_match`.
pub data NamespaceDescriptor (N : Type 0) : Type 0 where
  text : Str → NamespaceDescriptor N
  regex : (is_match : Str → Bool) → NamespaceDescriptor N
  function : (Str → PacketDataValue N → Bool) → NamespaceDescriptor N

-- The test that a dynamic namespace makes for its descriptor.
unfoldable pub descriptor_match_fn :
    {N : Type 0} → NamespaceDescriptor N → Str → PacketDataValue N → Bool
descriptor_match_fn (NamespaceDescriptor.function f) = f
descriptor_match_fn (NamespaceDescriptor.regex is_match) = λ name auth. is_match name
descriptor_match_fn (NamespaceDescriptor.text t) = λ name auth. same name t

pub data NamespaceKind {N : Type 0} (storage : Storage N) : Type 0 where
  simple : SimpleNamespace storage → NamespaceKind storage
  dynamic : NamespaceKind storage

module _ {json : Json} {storage : Storage json.Number} where
  unfoldable pub get_namespace :
      Str → Shared json storage → SimpleNamespace storage × Shared json storage
  unfolding get_or_create_namespace
  get_namespace name s = let r = get_or_create_namespace name s in (r.0, r.2)

  unfoldable pub of :
      NamespaceDescriptor json.Number
      → Shared json storage
      → NamespaceKind storage × Shared json storage
  unfolding get_namespace make_dynamic_namespace descriptor_match_fn
  of (NamespaceDescriptor.text name) s =
      let r = get_namespace name s in (NamespaceKind.simple r.0, r.1)
  of (NamespaceDescriptor.regex is_match) s =
      (dynamic, make_dynamic_namespace (descriptor_match_fn (NamespaceDescriptor.regex is_match)) s)
  of (NamespaceDescriptor.function f) s =
      (dynamic, make_dynamic_namespace (descriptor_match_fn (NamespaceDescriptor.function f)) s)

pub find-insert :
    {V : Type 0} (k : Str) (v : V) (m : List (Str × V)) → find k (insert k v m) ≡ some v
find-insert k v m = rw (same_refl k) refl

pub find-delete :
    {V : Type 0} (k j : Str) (m : List (Str × V))
    → same j k ≡ false
    → find j (delete k m) ≡ find j m
find-delete k j [] ne = refl
find-delete k j ((i, v) ∷ m) ne = elim (Bool-cases (same i k)) [
  | inl e ↦ rw e (
      find-delete k j m ne
      ∙ ap (λ b. if b then some v else find j m)
          (sym (ap (λ t. same t j) (same→eq i k e) ∙ same_comm k j ∙ ne)))
  | inr e ↦ rw e (ap (λ o. if same i j then some v else o) (find-delete k j m ne))
]

-- A name without a slash in front.
abbrev pub IsBare : Str → Type 0
IsBare [] = Unit
IsBare (c ∷ name) = c ≢ b'/'

module _ {json : Json} {storage : Storage json.Number} where
  abbrev with_new : Str → Shared json storage → Shared json storage
  with_new name s = record s {
    namespaces = insert (with_slash name) (Namespace.new storage (with_slash name)) s.namespaces;
  }

  -- Whether two names lead to the same namespace: asked for by one, it is found by the other, the same,
  -- and nothing is changed by that.
  abbrev pub Leads : Str → Str → Shared json storage → Type 0
  Leads name again s =
      get_or_create_namespace again (get_or_create_namespace name s).2
      ≡ ((get_or_create_namespace name s).0, existing, (get_or_create_namespace name s).2)
