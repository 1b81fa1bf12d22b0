-- ===== src/Network/TcpDriver/Lifecycle.antt =====
-- The life of one connection, as the user of the driver sees it: the states in which an id can be,
-- and the events that lead from one to the next.
use message_io.Prelude.{ℕ, true, false, Option, none, some, List, [], ◌∷◌, ◌++◌, map}
use message_io.Network.ResourceId.{ResourceId}
use message_io.Network.Messages.{SocketAddr, NetEvent, connected, accepted, message}
use message_io.Network.TcpDriver.{RemoteRegister}

-- An id is not registered, waits for the connection that the user asked for or for one that a
-- listener accepted, or is ready.
pub data Life : Type 0 where
  absent : Life
  connecting : SocketAddr → Life
  accepting : ResourceId → SocketAddr → Life
  live : SocketAddr → Life

abbrev pub pending_life : Option ResourceId → SocketAddr → Life
pending_life none addr = connecting addr
pending_life (some listener_id) addr = accepting listener_id addr

abbrev pub life_of : {R : Type 0} → Option (RemoteRegister R) → Life
life_of none = absent
life_of (some r) = elim r.properties.ready [
  | true ↦ live r.properties.peer_addr
  | false ↦ pending_life r.properties.local r.properties.peer_addr
]

-- The events of the id, in their order. An accepted connection that breaks before it is ready is
-- dropped without one.
pub data Lives (id : ResourceId) : Life → List NetEvent → Life → Type 0 where
  same : {s : Life} → Lives id s [] s
  established :
      (a : SocketAddr) {es : List NetEvent} {t : Life}
      → Lives id (live a) es t
      → Lives id (connecting a) (connected (record { resource_id = id; addr = a }) true ∷ es) t
  refused :
      (a : SocketAddr) {es : List NetEvent} {t : Life}
      → Lives id absent es t
      → Lives id (connecting a) (connected (record { resource_id = id; addr = a }) false ∷ es) t
  welcomed :
      (l : ResourceId) (a : SocketAddr) {es : List NetEvent} {t : Life}
      → Lives id (live a) es t
      → Lives id (accepting l a) (accepted (record { resource_id = id; addr = a }) l ∷ es) t
  dropped :
      (l : ResourceId) (a : SocketAddr) {es : List NetEvent} {t : Life}
      → Lives id absent es t
      → Lives id (accepting l a) es t
  received :
      (a : SocketAddr) (bytes : List ℕ) {es : List NetEvent} {t : Life}
      → Lives id (live a) es t
      → Lives id (live a) (message (record { resource_id = id; addr = a }) bytes ∷ es) t
  lost :
      (a : SocketAddr) {es : List NetEvent} {t : Life}
      → Lives id absent es t
      → Lives id (live a) (NetEvent.disconnected (record { resource_id = id; addr = a }) ∷ es) t

-- One history after another.
pub Lives-append :
    (id : ResourceId) {s t u : Life} {es fs : List NetEvent}
    → Lives id s es t
    → Lives id t fs u
    → Lives id s (es ++ fs) u
Lives-append id Lives.same later = later
Lives-append id (Lives.established a h) later = Lives.established a (Lives-append id h later)
Lives-append id (Lives.refused a h) later = Lives.refused a (Lives-append id h later)
Lives-append id (Lives.welcomed l a h) later = Lives.welcomed l a (Lives-append id h later)
Lives-append id (Lives.dropped l a h) later = Lives.dropped l a (Lives-append id h later)
Lives-append id (Lives.received a bytes h) later = Lives.received a bytes (Lives-append id h later)
Lives-append id (Lives.lost a h) later = Lives.lost a (Lives-append id h later)

-- What a ready connection reads.
pub Lives-messages :
    (id : ResourceId) (a : SocketAddr) (packets : List (List ℕ)) {es : List NetEvent} {t : Life}
    → Lives id (live a) es t
    → Lives id (live a) (map (message (record { resource_id = id; addr = a })) packets ++ es) t
Lives-messages id a [] h = h
Lives-messages id a (p ∷ packets) h = Lives.received a p (Lives-messages id a packets h)
