-- ===== src/SocketServer/Namespace.antt =====
-- socket_io_server/src/namespace.rs: namespaces, dynamic ones, and those filtered by rooms. A set is
-- a list; what is sent on the broadcast channel is kept in order.
pub mod Members
pub mod Broadcasts
use socket_io_server_rust.Prelude.{
  Bool, true, false, if◌then◌else◌, none, List, [], ◌∷◌, ◌++◌, Str, Outcome, ok, err, panic,
}
use socket_io_server_rust.SocketParser.Json.{chars, same}
use socket_io_server_rust.SocketParser.Packet.{PacketType, PacketDataValue, ValueArray, Packet}
use socket_io_server_rust.SocketServer.Storage.{
  Flags, default_flags, BroadcastError, EmitError, empty_event_name, from_broadcast_error, Storage,
}

pub data NamespaceEvent : Type 0 where
  broadcast : NamespaceEvent
  connection : Str → NamespaceEvent

-- `HashSet::insert` and `remove`
abbrev pub member : Str → List Str → Bool
member x [] = false
member x (y ∷ ys) = if same x y then true else member x ys

abbrev pub set_insert : Str → List Str → List Str
set_insert x set = if member x set then set else x ∷ set

abbrev pub set_remove : Str → List Str → List Str
set_remove x [] = []
set_remove x (y ∷ ys) = if same x y then set_remove x ys else y ∷ set_remove x ys

abbrev pub make_hash_set_from_str : Str → List Str
make_hash_set_from_str input_str = input_str ∷ []

abbrev pub message_event_name : Str
message_event_name = chars "message"

unfoldable pub make_packet_for_event : {N : Type 0} → Str → PacketDataValue N → Str → Packet N
make_packet_for_event event_name data' namespace_name = record {
  packet_type = PacketType.event;
  data' = PacketDataValue.array (
      ValueArray.item (PacketDataValue.string event_name)
        (ValueArray.item data' ValueArray.no_items));
  nsp = namespace_name;
  id = none;
}

-- `.map_err(|err| err.into())`
abbrev pub emit_result : {X : Type 0} → Outcome BroadcastError Unit × X → Outcome EmitError Unit × X
unfolding from_broadcast_error
emit_result (ok _, x) = (ok tt, x)
emit_result (err e, x) = (err (from_broadcast_error e), x)
emit_result (panic, x) = (panic, x)

module _ {N : Type 0} (storage : Storage N) where
  pub record SimpleNamespace : Type 0 where
    pub name : Str
    pub socket_ids : List Str
    pub rooms : storage.State
    pub events : List NamespaceEvent

  unfoldable pub new : Str → SimpleNamespace
  new name = record { name = name; socket_ids = []; rooms = storage.new; events = [] }

  unfoldable pub add_socket_to_room : Str → Str → SimpleNamespace → SimpleNamespace
  add_socket_to_room socket_id room ns = record ns {
    rooms = storage.add_all socket_id (make_hash_set_from_str room) ns.rooms;
    socket_ids = set_insert socket_id ns.socket_ids;
    events = ns.events ++ NamespaceEvent.connection socket_id ∷ [];
  }

  unfoldable pub add_socket : Str → SimpleNamespace → SimpleNamespace
  unfolding add_socket_to_room
  add_socket socket_id = add_socket_to_room socket_id socket_id

  unfoldable pub remove_socket : Str → SimpleNamespace → SimpleNamespace
  remove_socket socket_id ns = record ns {
    socket_ids = set_remove socket_id ns.socket_ids;
    rooms = storage.del socket_id socket_id ns.rooms;
  }

  unfoldable pub remove_socket_from_room : Str → Str → SimpleNamespace → SimpleNamespace
  remove_socket_from_room socket_id room ns = record ns {
    rooms = storage.del socket_id room ns.rooms;
  }

  unfoldable pub broadcast_packet :
      Str
      → PacketDataValue N
      → List Str
      → Flags
      → SimpleNamespace
      → Outcome BroadcastError Unit × SimpleNamespace
  unfolding make_packet_for_event
  broadcast_packet event_name data' rooms flags ns =
      let r =
        storage.broadcast (make_packet_for_event event_name data' ns.name) rooms flags ns.rooms in
      (r.0, record ns { rooms = r.1 })

  unfoldable pub emit_with_flags :
      Str → PacketDataValue N → Flags → SimpleNamespace → Outcome EmitError Unit × SimpleNamespace
  unfolding broadcast_packet emit_result
  emit_with_flags event_name data' flags ns =
      emit_result (broadcast_packet event_name data' [] flags ns)

  unfoldable pub emit :
      Str → PacketDataValue N → SimpleNamespace → Outcome EmitError Unit × SimpleNamespace
  unfolding emit_with_flags
  emit event_name data' = emit_with_flags event_name data' default_flags

  unfoldable pub send_with_flags :
      PacketDataValue N → Flags → SimpleNamespace → Outcome EmitError Unit × SimpleNamespace
  unfolding emit_with_flags
  send_with_flags data' flags = emit_with_flags message_event_name data' flags

  unfoldable pub send :
      PacketDataValue N → SimpleNamespace → Outcome EmitError Unit × SimpleNamespace
  unfolding send_with_flags
  send data' = send_with_flags data' default_flags

  -- `members.iter().try_for_each(...)`: up to the first error.
  unfoldable pub broadcast_members :
      Str
      → PacketDataValue N
      → List Str
      → Flags
      → List SimpleNamespace
      → Outcome BroadcastError Unit × List SimpleNamespace
  unfolding broadcast_packet
  broadcast_members event_name data' rooms flags [] = (ok tt, [])
  broadcast_members event_name data' rooms flags (ns ∷ members) =
      let r = broadcast_packet event_name data' rooms flags ns in
      let rest = broadcast_members event_name data' rooms flags members in
      elim r.0 [
        | ok _ ↦ (rest.0, r.1 ∷ rest.1)
        | err e ↦ (err e, r.1 ∷ members)
        | panic ↦ (panic, r.1 ∷ members)
      ]

  -- The events of `DynamicNamespace`: to all members.
  unfoldable pub emit_members_with_flags :
      Str
      → PacketDataValue N
      → Flags
      → List SimpleNamespace
      → Outcome EmitError Unit × List SimpleNamespace
  unfolding broadcast_members emit_result
  emit_members_with_flags event_name data' flags members =
      emit_result (broadcast_members event_name data' [] flags members)

  unfoldable pub emit_members :
      Str → PacketDataValue N → List SimpleNamespace → Outcome EmitError Unit × List SimpleNamespace
  unfolding emit_members_with_flags
  emit_members event_name data' = emit_members_with_flags event_name data' default_flags

  unfoldable pub send_members :
      PacketDataValue N → List SimpleNamespace → Outcome EmitError Unit × List SimpleNamespace
  unfolding emit_members
  send_members data' = emit_members message_event_name data'

  unfoldable pub send_members_with_flags :
      PacketDataValue N
      → Flags
      → List SimpleNamespace
      → Outcome EmitError Unit × List SimpleNamespace
  unfolding emit_members_with_flags
  send_members_with_flags data' flags = emit_members_with_flags message_event_name data' flags

-- A namespace behind a shared pointer, by its broadcast; the namespace itself is `X`.
pub record FilteredNamespace (N X : Type 0) : Type 0 where
  pub broadcast_packet :
      Str → PacketDataValue N → List Str → Flags → X → Outcome BroadcastError Unit × X
  pub rooms : List Str

module _ {N X : Type 0} where
  -- `FilteredNamespace::new`
  unfoldable pub filter :
      Str
      → (Str → PacketDataValue N → List Str → Flags → X → Outcome BroadcastError Unit × X)
      → FilteredNamespace N X
  filter room broadcast_packet = record { broadcast_packet = broadcast_packet; rooms = room ∷ [] }

  unfoldable pub to : Str → FilteredNamespace N X → FilteredNamespace N X
  to room_name self = record self { rooms = make_hash_set_from_str room_name }

  unfoldable pub add_room : Str → FilteredNamespace N X → FilteredNamespace N X
  add_room room_name self = record self { rooms = set_insert room_name self.rooms }

  unfoldable pub emit_filtered_with_flags :
      Str → PacketDataValue N → Flags → FilteredNamespace N X → X → Outcome EmitError Unit × X
  unfolding emit_result
  emit_filtered_with_flags event_name data' flags self ns =
      if same event_name []
      then (err empty_event_name, ns)
      else emit_result (self.broadcast_packet event_name data' self.rooms flags ns)

  unfoldable pub emit_filtered :
      Str → PacketDataValue N → FilteredNamespace N X → X → Outcome EmitError Unit × X
  unfolding emit_filtered_with_flags
  emit_filtered event_name data' = emit_filtered_with_flags event_name data' default_flags

  unfoldable pub send_filtered :
      PacketDataValue N → FilteredNamespace N X → X → Outcome EmitError Unit × X
  unfolding emit_filtered
  send_filtered data' = emit_filtered message_event_name data'

  unfoldable pub send_filtered_with_flags :
      PacketDataValue N → Flags → FilteredNamespace N X → X → Outcome EmitError Unit × X
  unfolding emit_filtered_with_flags
  send_filtered_with_flags data' flags = emit_filtered_with_flags message_event_name data' flags
