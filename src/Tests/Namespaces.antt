-- ===== src/Tests/Namespaces.antt =====
-- socket_io_server/src/namespace.rs: the theorems at concrete inputs.
use socket_io_server_rust.Prelude.{
  ℕ, Bool, true, false, ◌≡◌, ◌++◌, All, if◌then◌else◌, err, List, [], ◌∷◌, ok,
}
use socket_io_server_rust.SocketParser.Json.{chars}
use socket_io_server_rust.SocketParser.Packet.{PacketDataValue}
use socket_io_server_rust.SocketServer.Storage.{Storage, broadcast_error, default_flags}
use socket_io_server_rust.SocketServer.Namespace.{SimpleNamespace, broadcast_packet}
use socket_io_server_rust.SocketServer.Namespace.{member, broadcast_members}
use socket_io_server_rust.SocketServer.Namespace.Members.{leaves, leaves_room, moves, member-moves}
use socket_io_server_rust.SocketServer.Namespace.Members as Members
use socket_io_server_rust.SocketServer.Namespace.Broadcasts.{
  Stops, stopped, broadcast_members-split,
}
use socket_io_server_rust.SocketServer.Namespace.Members.{Move}
use socket_io_server_rust.Tests.SocketServer.{storage, main}

-- The socket "t" came and left a room; "s" stayed.
member-moves_example :
    (member
        (chars "t")
        (moves storage
          (Members.joins (chars "t")
            ∷ Members.joins (chars "s")
            ∷ leaves (chars "t")
            ∷ leaves_room (chars "s") (chars "s")
            ∷ [])
          main).socket_ids
      ≡ false)
member-moves_example =
    member-moves storage (chars "t")
      (Members.joins (chars "t")
        ∷ Members.joins (chars "s")
        ∷ leaves (chars "t")
        ∷ leaves_room (chars "s") (chars "s")
        ∷ [])
      main

-- A storage whose state says whether a broadcast fails.
abbrev failing : Storage ℕ
failing = record {
  State = Bool;
  new = false;
  add_all = λ socket_id rooms s. s;
  del = λ socket_id room s. s;
  broadcast = λ packet rooms flags s. (if s then err broadcast_error else ok tt, s);
}

abbrev room_of : Bool → SimpleNamespace failing
room_of b = record { name = chars "/a"; socket_ids = []; rooms = b; events = [] }

abbrev three : List (SimpleNamespace failing)
three = room_of false ∷ room_of true ∷ room_of false ∷ []

broadcast_members-split_example :
    (good rest : List (SimpleNamespace failing)) × (three ≡ good ++ rest)
    × All
        (λ ns.
          (broadcast_packet failing (chars "e") PacketDataValue.null [] default_flags ns).0 ≡ ok tt)
        good
    × Stops failing (chars "e") PacketDataValue.null [] default_flags rest
    × (broadcast_members failing (chars "e") PacketDataValue.null [] default_flags three
        ≡ stopped failing (chars "e") PacketDataValue.null [] default_flags good rest)
broadcast_members-split_example =
    broadcast_members-split failing (chars "e") PacketDataValue.null [] default_flags three
