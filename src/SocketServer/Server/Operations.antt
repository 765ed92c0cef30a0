-- ===== src/SocketServer/Server/Operations.antt =====
-- socket_io_server/src/server.rs: namespaces and connections. The identifier of a new socket and the
-- time are arguments.
use socket_io_server_rust.Prelude.{
  ℕ, Bool, true, false, ◌==◌, if◌then◌else◌, none, some, List, [], ◌∷◌, ◌++◌, Str,
}
use socket_io_server_rust.EngineServer.Util.{RequestContext}
use socket_io_server_rust.SocketParser.Json.{Json}
use socket_io_server_rust.SocketParser.Packet.{PacketDataValue}
use socket_io_server_rust.SocketServer.Storage.{Storage}
use socket_io_server_rust.SocketServer.Socket.{Handshake, new_handshake}
use socket_io_server_rust.SocketServer.Namespace as Namespace
use socket_io_server_rust.SocketServer.Namespace.{SimpleNamespace, remove_socket}
use socket_io_server_rust.SocketServer.Connection.{
  AddToNamespaceSuccess, added, already_existing, Connection, find, delete, insert, initialize,
  add_to_namespace, iter_socket_ids_mut,
}
use socket_io_server_rust.SocketServer.Server.State.{
  GetResult, new, existing, DynamicNamespace, Shared, Run, returns, panics, ◌>>=◌,
}

-- `name`, with a slash in front if it has none.
abbrev pub with_slash : Str → Str
with_slash [] = b'/' ∷ []
with_slash (c ∷ name) = if c == b'/' then c ∷ name else b'/' ∷ c ∷ name

abbrev pub result_id : AddToNamespaceSuccess → Str
result_id (added socket_id) = socket_id
result_id (already_existing socket_id) = socket_id

abbrev pub delete_all : List Str → List (Str × Str) → List (Str × Str)
delete_all [] m = m
delete_all (k ∷ ks) m = delete_all ks (delete k m)

-- The first dynamic namespace that matches gets the new member.
abbrev pub insert_member :
    {N : Type 0}
    → Str
    → PacketDataValue N
    → Str
    → List (DynamicNamespace N)
    → List (DynamicNamespace N)
insert_member name auth member [] = []
insert_member name auth member (d ∷ ds) =
    if d.match_fn name auth
    then record d { members = member ∷ d.members } ∷ ds
    else d ∷ insert_member name auth member ds

abbrev pub matches : {N : Type 0} → Str → PacketDataValue N → List (DynamicNamespace N) → Bool
matches name auth [] = false
matches name auth (d ∷ ds) = if d.match_fn name auth then true else matches name auth ds

module _ {N : Type 0} (storage : Storage N) where
  -- The destructor of the connection's state.
  abbrev pub leave_all :
      List (Str × Str) → List (Str × SimpleNamespace storage) → List (Str × SimpleNamespace storage)
  unfolding remove_socket
  leave_all [] namespaces = namespaces
  leave_all ((name, socket_id) ∷ rest) namespaces = leave_all rest (elim (find name namespaces) [
    | some ns ↦ insert name (remove_socket storage socket_id ns) namespaces
    | none ↦ namespaces
  ])

module _ {json : Json} {storage : Storage json.Number} where
  unfoldable pub get_or_create_namespace :
      Str → Shared json storage → SimpleNamespace storage × GetResult × Shared json storage
  unfolding Namespace.new
  get_or_create_namespace name s = elim (find (with_slash name) s.namespaces) [
    | some ns ↦ (ns, existing, s)
    | none ↦
        (let ns = Namespace.new storage (with_slash name) in
          (ns, new, record s { namespaces = insert (with_slash name) ns s.namespaces }))
  ]

  unfoldable pub namespace_exists : Str → Shared json storage → Bool
  namespace_exists name s = elim (find name s.namespaces) [ some _ ↦ true | none ↦ false ]

  -- `make_dynamic_namespace`, with the test that the descriptor makes.
  unfoldable pub make_dynamic_namespace :
      (Str → PacketDataValue json.Number → Bool) → Shared json storage → Shared json storage
  make_dynamic_namespace match_fn s = record s {
    dynamic_namespaces = s.dynamic_namespaces ++ record { match_fn = match_fn; members = [] } ∷ [];
  }

  abbrev pub join_member :
      Str
      → PacketDataValue json.Number
      → SimpleNamespace storage × GetResult × Shared json storage
      → Shared json storage
  join_member name auth (ns, existing, s) = s
  join_member name auth (ns, new, s) = record s {
    dynamic_namespaces = insert_member name auth ns.name s.dynamic_namespaces;
  }

  -- Whether there is such a namespace, which then has the name as a member.
  unfoldable pub get_matching_dynamic_namespace :
      Str → PacketDataValue json.Number → Shared json storage → Bool × Shared json storage
  unfolding get_or_create_namespace
  get_matching_dynamic_namespace name auth s =
      if matches name auth s.dynamic_namespaces
      then (true, join_member name auth (get_or_create_namespace name s))
      else (false, s)

  -- The socket, the namespace and the connection are stored.
  abbrev pub store_connection :
      Str
      → Str × SimpleNamespace storage × Connection json
      → Shared json storage
      → Str × Shared json storage
  store_connection engine_connection_id (socket_id, ns, connection) s = (
    socket_id,
    record s {
      namespaces = insert ns.name ns s.namespaces;
      connections = insert engine_connection_id connection s.connections;
      connection_lookup = insert socket_id engine_connection_id s.connection_lookup;
    },
  )

  unfoldable pub add_connection :
      Str
      → SimpleNamespace storage
      → Str
      → Handshake json.Number
      → Shared json storage
      → Str × Shared json storage
  unfolding initialize add_to_namespace
  add_connection new_id ns engine_connection_id handshake s =
      elim (find engine_connection_id s.connections) [
        | some connection ↦
            (let r = add_to_namespace storage new_id handshake ns connection in
              store_connection engine_connection_id (result_id r.0, r.1, r.2) s)
        | none ↦
            store_connection engine_connection_id
              (initialize storage new_id engine_connection_id handshake ns) s
      ]

  unfoldable pub remove_connection : Str → Shared json storage → Bool × Shared json storage
  unfolding iter_socket_ids_mut leave_all
  remove_connection engine_connection_id s = elim (find engine_connection_id s.connections) [
    | some connection ↦ (
      true,
      record s {
        connections = delete engine_connection_id s.connections;
        connection_lookup = delete_all (iter_socket_ids_mut connection) s.connection_lookup;
        namespaces = leave_all storage connection.namespaces s.namespaces;
      },
    )
    | none ↦ (false, s)
  ]

  unfoldable pub handle_engine_socket_close : Str → Shared json storage → Shared json storage
  unfolding remove_connection
  handle_engine_socket_close engine_connection_id s = (remove_connection engine_connection_id s).1

  -- `todo!()`
  unfoldable pub setup_connect_timer : Str → Shared json storage → Run json storage Unit
  setup_connect_timer connection_id s = panics s

  -- `todo!()`
  unfoldable pub clear_connect_timer : Str → Shared json storage → Run json storage Unit
  clear_connect_timer connection_id s = panics s

  -- `send_message`, `send_packet_to_namespace` and `join_room` are `todo!()`.
  unfoldable pub send_message :
      (socket_id : Str) → PacketDataValue json.Number → Shared json storage → Run json storage Unit
  send_message socket_id data' s = panics s

  unfoldable pub send_packet_to_namespace :
      (namespace_name : Str)
      → PacketDataValue json.Number
      → Shared json storage
      → Run json storage Unit
  send_packet_to_namespace namespace_name data' s = panics s

  unfoldable pub join_room :
      (socket_id room_name : Str) → Shared json storage → Run json storage Unit
  join_room socket_id room_name s = panics s

  unfoldable pub connect_client :
      Str
      → ℕ
      → RequestContext
      → Str
      → Str
      → PacketDataValue json.Number
      → Shared json storage
      → Run json storage (SimpleNamespace storage × Str)
  unfolding clear_connect_timer get_or_create_namespace new_handshake add_connection
  connect_client new_id time context namespace_name engine_connection_id auth s = do
    (_, s) ← clear_connect_timer engine_connection_id s
    let r = get_or_create_namespace namespace_name s
    let q = add_connection new_id r.0 engine_connection_id (new_handshake time context auth) r.2
    returns ((r.0, q.0), q.1)
