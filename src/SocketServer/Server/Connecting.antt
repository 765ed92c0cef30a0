-- ===== src/SocketServer/Server/Connecting.antt =====
-- socket_io_server/src/server.rs: clients that connect.
use socket_io_server_rust.Prelude.{
  ℕ, Bool, true, false, if◌then◌else◌, Bool-cases, inl, inr, Option, none, some, [], Str, Outcome,
  ok, err, panic, ◌≡◌, refl, ◌∙◌,
}
use socket_io_server_rust.Nom.{Combinators}
use socket_io_server_rust.EngineParser.Packet as Engine
use socket_io_server_rust.EngineServer.Util.{RequestContext}
use socket_io_server_rust.SocketParser.Json.{Json}
use socket_io_server_rust.SocketParser.Packet.{
  PacketDataValue, Packet, ProtoPacket, header_has_attachments,
}
use socket_io_server_rust.SocketParser.Parsing as Parsing
use socket_io_server_rust.SocketParser.Parsing.{HandleEngineMessageError}
use socket_io_server_rust.SocketServer.Storage.{Storage}
use socket_io_server_rust.SocketServer.Namespace.{SimpleNamespace}
use socket_io_server_rust.SocketServer.Connection.{find}
use socket_io_server_rust.SocketServer.Server.State.{
  GetResult, new, existing, Shared, Run, returns, panics, ◌>>=◌,
}
use socket_io_server_rust.SocketServer.Server.Operations.{
  with_slash, join_member, matches, get_or_create_namespace, namespace_exists,
  get_matching_dynamic_namespace, connect_client, clear_connect_timer,
}
use socket_io_server_rust.SocketServer.Server.Messages.{
  connect_error, respond, is_connect, handle_client_connect, handle_packet_from_client,
  on_proto_packet, handle_new_message,
}

module _ {json : Json} {storage : Storage json.Number} where
  abbrev pub after : {X : Type 0} → Run json storage X → Shared json storage
  after (returns r) = r.1
  after (panics s) = s

  created-connections :
      (o : Option (SimpleNamespace storage)) (name : Str) (s : Shared json storage)
      → find (with_slash name) s.namespaces ≡ o
      → (get_or_create_namespace name s).2.connections ≡ s.connections
  unfolding get_or_create_namespace
  created-connections (some ns) name s e = rw (e, get_or_create_namespace) (refl)
  created-connections none name s e = rw (e, get_or_create_namespace) (refl)

  join_member-connections :
      (name : Str) (auth : PacketDataValue json.Number) (ns : SimpleNamespace storage)
      (g : GetResult) (s : Shared json storage)
      → (join_member name auth (ns, g, s)).connections ≡ s.connections
  join_member-connections name auth ns new s = refl
  join_member-connections name auth ns existing s = refl

  matching-connections :
      (name : Str) (auth : PacketDataValue json.Number) (s : Shared json storage)
      → (get_matching_dynamic_namespace name auth s).1.connections ≡ s.connections
  unfolding get_matching_dynamic_namespace
  matching-connections name auth s = elim (Bool-cases (matches name auth s.dynamic_namespaces)) [
    | (inl e) ↦ rw (e) (
        let r = get_or_create_namespace name s in
        join_member-connections name auth r.0 r.1 r.2
        ∙ created-connections (find (with_slash name) s.namespaces) name s refl)
    | (inr e) ↦ rw (e) (refl)
  ]

  abbrev refused :
      Bool
      → Bool
      → Packet json.Number
      → Shared json storage
      → Shared json storage
      → Run json storage (Packet json.Number)
  refused b m p s s' = if b then panics s else if m then panics s' else returns (p, s')

  refused-connections :
      (b m : Bool) (p : Packet json.Number) (s s' : Shared json storage)
      → s'.connections ≡ s.connections
      → (after (refused b m p s s')).connections ≡ s.connections
  refused-connections true m p s s' e = refl
  refused-connections false true p s s' e = e
  refused-connections false false p s s' e = e

  -- A client that connects is refused, or the task ends in a panic; no connection is stored.
  handle_client_connect-connections :
      (new_id : Str) (time : ℕ) (context : RequestContext) (name id : Str)
      (auth : PacketDataValue json.Number) (s : Shared json storage)
      → (after (handle_client_connect new_id time context name id auth s)).connections
        ≡ s.connections
  unfolding handle_client_connect connect_client clear_connect_timer
  handle_client_connect-connections new_id time context name id auth s =
      refused-connections (namespace_exists name s) (get_matching_dynamic_namespace name auth s).0
        (connect_error name) s (get_matching_dynamic_namespace name auth s).1
        (matching-connections name auth s)

  responded-connections :
      (r : Run json storage (Packet json.Number))
      → (after (r >>= λ (packet, s). returns (tt, respond packet s))).connections
        ≡ (after r).connections
  unfolding respond
  responded-connections (returns r) = refl
  responded-connections (panics s) = refl

  client-connections :
      (new_id : Str) (time : ℕ) (context : RequestContext) (id : Str) (packet : Packet json.Number)
      (s : Shared json storage)
      → s.connections ≡ []
      → (after (handle_packet_from_client new_id time context id packet s)).connections ≡ []
  unfolding handle_packet_from_client
  client-connections new_id time context id packet s e =
      elim (Bool-cases (is_connect packet.packet_type)) [
        | (inl c) ↦ rw (c) (
            responded-connections
              (handle_client_connect new_id time context packet.nsp id packet.data' s)
            ∙ handle_client_connect-connections new_id time context packet.nsp id packet.data' s
            ∙ e)
        | (inr c) ↦ rw (c, e) (e)
      ]

  proto-connections :
      (new_id : Str) (time : ℕ) (context : RequestContext) (id : Str)
      (p : Outcome HandleEngineMessageError (ProtoPacket json.Number)) (s : Shared json storage)
      → s.connections ≡ []
      → (after (on_proto_packet new_id time context id p s)).connections ≡ []
  unfolding on_proto_packet
  proto-connections new_id time context id (ok (ProtoPacket.multipart header)) s e =
      elim (Bool-cases (header_has_attachments header)) [
        | (inl c) ↦ rw (c, e) (e)
        | (inr c) ↦ rw (c) (e)
      ]
  proto-connections new_id time context id (ok (ProtoPacket.plain packet)) s e =
      client-connections new_id time context id packet s e
  proto-connections new_id time context id (err _) s e = e
  proto-connections new_id time context id panic s e = e

  -- While no connection is stored, no message of any client stores one: the task that is to connect
  -- it ends in a panic, or the client is refused.
  pub handle_new_message-connections :
      {O : Type 0} (nom : Combinators O) (new_id : Str) (time : ℕ) (context : RequestContext)
      (id : Str) (data' : Engine.PacketData) (s : Shared json storage)
      → s.connections ≡ []
      → (after (handle_new_message nom new_id time context id data' s)).connections ≡ []
  unfolding handle_new_message
  handle_new_message-connections nom new_id time context id (Engine.PacketData.text t) s e =
      proto-connections new_id time context id (Parsing.decode_proto_packet json nom t) s e
  handle_new_message-connections nom new_id time context id (Engine.PacketData.binary b) s e =
      rw (e) (refl)
  handle_new_message-connections nom new_id time context id Engine.PacketData.empty s e = e
