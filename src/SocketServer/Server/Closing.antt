-- ===== src/SocketServer/Server/Closing.antt =====
-- socket_io_server/src/server.rs: what is left of a connection that the engine closed.
use socket_io_server_rust.Prelude.{
  false, Bool-cases, inl, inr, none, some, List, [], ◌∷◌, ◌≡◌, refl, ◌∙◌, Str, All,
}
use socket_io_server_rust.SocketParser.Json.{Json, same, same→eq}
use socket_io_server_rust.SocketServer.Storage.{Storage}
use socket_io_server_rust.SocketServer.Connection.{Connection, find, delete, iter_socket_ids_mut}
use socket_io_server_rust.SocketServer.Server.State.{Shared}
use socket_io_server_rust.SocketServer.Server.Operations.{
  delete_all, remove_connection, handle_engine_socket_close,
}
use socket_io_server_rust.SocketServer.Server.Descriptors.{find-delete}

module _ {V : Type 0} where
  find-delete_same : (k : Str) (m : List (Str × V)) → find k (delete k m) ≡ none
  find-delete_same k [] = refl
  find-delete_same k ((j, v) ∷ m) = elim (Bool-cases (same j k)) [
    | inl e ↦ rw e (find-delete_same k m)
    | inr e ↦ rw e (rw e (find-delete_same k m))
  ]

  find-delete-none : (k j : Str) (m : List (Str × V)) → find j m ≡ none → find j (delete k m) ≡ none
  find-delete-none k j m h = elim (Bool-cases (same j k)) [
    | inl e ↦ rw (same→eq j k e) (find-delete_same k m)
    | inr e ↦ find-delete k j m e ∙ h
  ]

delete_all-none :
    (ks : List Str) (j : Str) (m : List (Str × Str))
    → find j m ≡ none
    → find j (delete_all ks m) ≡ none
delete_all-none [] j m h = h
delete_all-none (k ∷ ks) j m h = delete_all-none ks j (delete k m) (find-delete-none k j m h)

all-deleted : (ks : List Str) (m : List (Str × Str)) → All (λ k. find k (delete_all ks m) ≡ none) ks
all-deleted [] m = tt
all-deleted (k ∷ ks) m =
    (delete_all-none ks k (delete k m) (find-delete_same k m), all-deleted ks (delete k m))

module _ {json : Json} {storage : Storage json.Number} where
  removed_lem :
      (id : Str) (s : Shared json storage) (connection : Connection json)
      → find id s.connections ≡ some connection
      → ((remove_connection id s).1.connections ≡ delete id s.connections)
        × ((remove_connection id s).1.connection_lookup
            ≡ delete_all (iter_socket_ids_mut connection) s.connection_lookup)
  unfolding remove_connection
  removed_lem id s connection e = rw (e, remove_connection) (refl, refl)

  closed_lem :
      (id : Str) (s : Shared json storage) (connection : Connection json)
      → find id s.connections ≡ some connection
      → ((handle_engine_socket_close id s).connections ≡ delete id s.connections)
        × ((handle_engine_socket_close id s).connection_lookup
            ≡ delete_all (iter_socket_ids_mut connection) s.connection_lookup)
  unfolding handle_engine_socket_close
  closed_lem = removed_lem

  -- When the engine closes a connection, the server forgets it and every socket of it: neither is
  -- found again, and every other connection is found as before.
  pub handle_engine_socket_close-forgets :
      (id : Str) (s : Shared json storage) (connection : Connection json) (other : Str)
      → find id s.connections ≡ some connection
      → same other id ≡ false
      → (find id (handle_engine_socket_close id s).connections ≡ none)
        × All
            (λ socket_id. find socket_id (handle_engine_socket_close id s).connection_lookup ≡ none)
            (iter_socket_ids_mut connection)
        × (find other (handle_engine_socket_close id s).connections ≡ find other s.connections)
  handle_engine_socket_close-forgets id s connection other e ne =
      let (connections, lookup) = closed_lem id s connection e in
      rw connections (
        rw lookup (
          find-delete_same id s.connections,
          all-deleted (iter_socket_ids_mut connection) s.connection_lookup,
          find-delete id other s.connections ne,
        ))
