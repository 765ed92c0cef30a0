-- ===== src/SocketServer/Namespace/Broadcasts.antt =====
-- socket_io_server/src/namespace.rs: a broadcast to the members of a dynamic namespace.
use socket_io_server_rust.Prelude.{
  ◌≡◌, ◌∙◌, ◌≢◌, ◌⊎◌, inl, inr, refl, ap, List, [], ◌∷◌, ◌++◌, map, All, Str, Outcome, ok, err,
  panic,
}
use socket_io_server_rust.SocketParser.Packet.{PacketDataValue}
use socket_io_server_rust.SocketServer.Storage.{Flags, BroadcastError, Storage}
use socket_io_server_rust.SocketServer.Namespace.{
  SimpleNamespace, broadcast_packet, broadcast_members,
}

outcome-cases :
    (o : Outcome BroadcastError Unit)
    → (o ≡ ok tt) ⊎ ((e : BroadcastError) × (o ≡ err e)) ⊎ (o ≡ panic)
outcome-cases (ok _) = inl refl
outcome-cases (err e) = inr (inl (e, refl))
outcome-cases panic = inr (inr refl)

err-ne-ok : (o : Outcome BroadcastError Unit) (e : BroadcastError) → o ≡ err e → o ≢ ok tt
err-ne-ok o e h k = cc

panic-ne-ok : (o : Outcome BroadcastError Unit) → o ≡ panic → o ≢ ok tt
panic-ne-ok o h k = cc

module _ {N : Type 0} (storage : Storage N) (event_name : Str) (data' : PacketDataValue N)
    (rooms : List Str) (flags : Flags) where
  abbrev one : SimpleNamespace storage → Outcome BroadcastError Unit × SimpleNamespace storage
  one ns = broadcast_packet storage event_name data' rooms flags ns

  abbrev all :
      List (SimpleNamespace storage) → Outcome BroadcastError Unit × List (SimpleNamespace storage)
  all members = broadcast_members storage event_name data' rooms flags members

  -- Who stands behind those that answer ok: nobody, or one that does not, and others.
  abbrev pub Stops : List (SimpleNamespace storage) → Type 0
  Stops [] = Unit
  Stops (bad ∷ behind) = (one bad).0 ≢ ok tt

  -- What a broadcast is to answer and to leave, from those that answer ok and those behind them.
  abbrev pub stopped :
      List (SimpleNamespace storage)
      → List (SimpleNamespace storage)
      → Outcome BroadcastError Unit × List (SimpleNamespace storage)
  stopped good [] = (ok tt, map (λ ns. (one ns).1) good)
  stopped good (bad ∷ behind) = ((one bad).0, map (λ ns. (one ns).1) good ++ (one bad).1 ∷ behind)

  stopped-cons :
      (ns : SimpleNamespace storage) (good rest : List (SimpleNamespace storage))
      → ((stopped good rest).0, (one ns).1 ∷ (stopped good rest).1) ≡ stopped (ns ∷ good) rest
  stopped-cons ns good [] = refl
  stopped-cons ns good (bad ∷ behind) = refl

  -- A broadcast goes to the members in order, each with its own name in the packet: to all that answer
  -- ok in front of the first that does not, and to that one, whose answer it gives, and those behind it
  -- are what they were; where all answer ok, it goes to all and is ok.
  pub broadcast_members-split :
      (members : List (SimpleNamespace storage))
      → (good rest : List (SimpleNamespace storage)) × (members ≡ good ++ rest)
        × All (λ ns. (one ns).0 ≡ ok tt) good
        × Stops rest
        × (all members ≡ stopped good rest)
  unfolding broadcast_members
  broadcast_members-split [] = ([], [], refl, tt, tt, refl)
  broadcast_members-split (ns ∷ members) = elim (outcome-cases (one ns).0) [
    | inl fine ↦
        let (good, rest, split, all_good, stop, same) = broadcast_members-split members in
        (
          ns ∷ good,
          rest,
          ap (λ t. ns ∷ t) split,
          (fine, all_good),
          stop,
          rw (fine, broadcast_members)
              (ap (λ r. (r.0, (one ns).1 ∷ r.1)) same ∙ stopped-cons ns good rest),
        )
    | inr (inl (e, bad)) ↦
        ([], ns ∷ members, refl, tt, err-ne-ok (one ns).0 e bad, rw (bad, broadcast_members) refl)
    | inr (inr bad) ↦
        ([], ns ∷ members, refl, tt, panic-ne-ok (one ns).0 bad, rw (bad, broadcast_members) refl)
  ]
