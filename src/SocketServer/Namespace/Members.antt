-- ===== src/SocketServer/Namespace/Members.antt =====
-- socket_io_server/src/namespace.rs: who is in a namespace, after any joins and leaves.
use socket_io_server_rust.Prelude.{
  Bool, true, false, Bool-cases, inl, inr, if◌then◌else◌, List, [], ◌∷◌, ◌≡◌, refl, ap, sym, ◌∙◌,
  Str, arith,
}
use socket_io_server_rust.SocketParser.Json.{same, same→eq}
use socket_io_server_rust.SocketServer.Storage.{Storage}
use socket_io_server_rust.SocketServer.Namespace.{
  SimpleNamespace, member, set_insert, set_remove, add_socket, add_socket_to_room, remove_socket,
  remove_socket_from_room,
}

-- What the connections do to a namespace.
pub data Move : Type 0 where
  joins : (socket_id : Str) → Move
  joins_room : (socket_id room : Str) → Move
  leaves : (socket_id : Str) → Move
  leaves_room : (socket_id room : Str) → Move

module _ {N : Type 0} (storage : Storage N) where
  unfoldable pub move : Move → SimpleNamespace storage → SimpleNamespace storage
  unfolding add_socket add_socket_to_room remove_socket remove_socket_from_room
  move (joins socket_id) ns = add_socket storage socket_id ns
  move (joins_room socket_id room) ns = add_socket_to_room storage socket_id room ns
  move (leaves socket_id) ns = remove_socket storage socket_id ns
  move (leaves_room socket_id room) ns = remove_socket_from_room storage socket_id room ns

  abbrev pub moves : List Move → SimpleNamespace storage → SimpleNamespace storage
  moves [] ns = ns
  moves (m ∷ ms) ns = moves ms (move m ns)

-- Whether the socket is in, by what it last did: to leave a room is not to leave.
abbrev pub is_in : Str → Move → Bool → Bool
is_in x (joins y) b = if same x y then true else b
is_in x (joins_room y room) b = if same x y then true else b
is_in x (leaves y) b = if same x y then false else b
is_in x (leaves_room y room) b = b

abbrev pub is_in_after : Str → List Move → Bool → Bool
is_in_after x [] b = b
is_in_after x (m ∷ ms) b = is_in_after x ms (is_in x m b)

member-set_insert :
    (x y : Str) (set : List Str)
    → member x (set_insert y set) ≡ (if same x y then true else member x set)
member-set_insert x y set = elim (Bool-cases (member y set)) [
  | inl old ↦
      rw old
        (elim (Bool-cases (same x y)) [ inl e ↦ rw e (rw (same→eq x y e) old) | inr e ↦ rw e refl ])
  | inr fresh ↦ rw fresh refl
]

if_skip :
    (a b m : Bool)
    → a ≡ b
    → (if a then false else m) ≡ (if a then false else (if b then true else m))
if_skip a b m h = ground arith

if_swap :
    (a b m : Bool)
    → (b ≡ true → a ≡ false)
    → (if b then true else (if a then false else m))
      ≡ (if a then false else (if b then true else m))
if_swap true true m h = let clash = h refl in cc
if_swap true false m h = refl
if_swap false b m h = refl

other_name : (x y z : Str) → same y z ≡ false → same x z ≡ true → same x y ≡ false
other_name x y z ne h = elim (Bool-cases (same x y)) [
  | inl e ↦ let clash : same y z ≡ true = ap (λ t. same t z) (sym (same→eq x y e)) ∙ h in cc
  | inr e ↦ e
]

member-set_remove :
    (x y : Str) (set : List Str)
    → member x (set_remove y set) ≡ (if same x y then false else member x set)
member-set_remove x y [] = ground arith
member-set_remove x y (z ∷ set) = elim (Bool-cases (same y z)) [
  | inl e ↦ rw e (
      member-set_remove x y set
      ∙ if_skip (same x y) (same x z) (member x set) (ap (same x) (same→eq y z e)))
  | inr e ↦ rw e (
      ap (λ m. if same x z then true else m) (member-set_remove x y set)
      ∙ if_swap (same x y) (same x z) (member x set) (other_name x y z e))
]

module _ {N : Type 0} (storage : Storage N) where
  member-move :
      (x : Str) (m : Move) (ns : SimpleNamespace storage)
      → member x (move storage m ns).socket_ids ≡ is_in x m (member x ns.socket_ids)
  unfolding move
  member-move x (joins y) ns = member-set_insert x y ns.socket_ids
  member-move x (joins_room y room) ns = member-set_insert x y ns.socket_ids
  member-move x (leaves y) ns = member-set_remove x y ns.socket_ids
  member-move x (leaves_room y room) ns = refl

  -- After any joins and leaves, a socket is in a namespace if the last of them that concerns it is a
  -- join, or if none does and it was in before; leaving a room does not concern this.
  pub member-moves :
      (x : Str) (ms : List Move) (ns : SimpleNamespace storage)
      → member x (moves storage ms ns).socket_ids ≡ is_in_after x ms (member x ns.socket_ids)
  member-moves x [] ns = refl
  member-moves x (m ∷ ms) ns =
      member-moves x ms (move storage m ns) ∙ ap (is_in_after x ms) (member-move x m ns)
