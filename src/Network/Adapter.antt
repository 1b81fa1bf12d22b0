-- ===== src/Network/Adapter.antt =====
-- The traits of src/network/adapter.rs, as records of the operations that a driver calls. `W` is
-- the state of the system, `R` a remote resource, `L` a local one and `K` a keepalive of socket2.
use message_io.Prelude.{ℕ, Bool, Option, List, [], ◌∷◌}
use message_io.Network.Messages.{
  SocketAddr, SendStatus, ReadStatus, PendingStatus, IoResult, ok, err, interrupted, ListenConfig,
}

-- `receive` has the packets that it gave to `process_data`, in their order.
pub record Remote (W R : Type 0) : Type 0 where
  pub source : R → ℕ
  pub receive : W → R → W × List (List ℕ) × ReadStatus
  pub send : W → R → List ℕ → W × SendStatus
  pub pending : W → R → W × PendingStatus
  pub ready_to_write : W → R → W × Bool

-- A connection with its stream and its payload, or a datagram.
pub data AcceptedType (A : Type 0) : Type 0 where
  remote : SocketAddr → ℕ → A → AcceptedType A
  datagram : SocketAddr → List ℕ → AcceptedType A

pub record ConnectionInfo (K : Type 0) : Type 0 where
  pub stream : ℕ
  pub local_addr : SocketAddr
  pub peer_addr : SocketAddr
  pub keepalive_opt : Option K

-- `accept` has what it gave to `accept_remote`; `send_to` is `none` where it panics.
pub record Local (W L K A : Type 0) : Type 0 where
  pub source : L → ℕ
  pub listen_with : W → ListenConfig K → SocketAddr → W × IoResult (L × SocketAddr)
  pub accept : W → L → W × List (AcceptedType A)
  pub send_to : W → L → SocketAddr → List ℕ → Option (W × SendStatus)
  pub local_addr : L → SocketAddr

-- The loop of `accept` over what the listener answers: each connection goes to `accept_remote` with
-- the payload of the listener, until an error that is not an interruption.
unfoldable pub accept_loop :
    {A : Type 0} → A → List (IoResult (ℕ × SocketAddr)) → List (AcceptedType A)
accept_loop payload [] = []
accept_loop payload (ok (stream, addr) ∷ answers) =
    AcceptedType.remote addr stream payload ∷ accept_loop payload answers
accept_loop payload (err interrupted ∷ answers) = accept_loop payload answers
accept_loop payload (err _ ∷ answers) = []
