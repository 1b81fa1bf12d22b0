-- ===== src/Network/TcpDriver/Stages.antt =====
-- The stages of a connection that an adapter keeps behind `Remote`, and what the driver owes to it:
-- an adapter panics when it is called in a stage in which the call has no meaning.
pub mod Keeps
pub mod Polls
pub mod Steps
pub mod Reach
use message_io.Prelude.{ℕ, ◌≡◌, ◌≢◌, Bool, true, false, List, some}
use message_io.Network.Messages.{SendStatus, ReadStatus, PendingStatus, ListenConfig, SocketAddr}
use message_io.Network.Registry.{Register}
use message_io.Network.Registry.Coherence.{IsCoherent}
use message_io.Network.Adapter.{Remote, Local}
use message_io.Network.TcpDriver.{TcpDriver, RemoteRegister}

-- A connection is being established, is established, or is of no use any more.
pub data Stage : Type 0 where
  establishing established unusable : Stage

abbrev pub stage_of : Bool → Stage
stage_of true = established
stage_of false = establishing

-- What an adapter shows of the state of the system: whether a call has panicked, and the stage of
-- the connection on each stream.
pub record Stages (W : Type 0) : Type 0 where
  pub panicked : W → Bool
  pub stage : W → ℕ → Stage

-- A call on one stream: it did not panic, and it left the other streams as they were.
pub record Calm {W : Type 0} (st : Stages W) (w w' : W) (stream : ℕ) : Type 0 where
  pub healthy : st.panicked w' ≡ false
  pub apart : (t : ℕ) → t ≢ stream → st.stage w' t ≡ st.stage w t

-- A change of the system that touches no connection.
pub record Unmoved {W : Type 0} (st : Stages W) (w w' : W) : Type 0 where
  pub healthy : st.panicked w ≡ false → st.panicked w' ≡ false
  pub stages : (t : ℕ) → st.stage w' t ≡ st.stage w t

-- What an adapter promises to a driver that asks for the readiness of a connection only while it is
-- being established, and receives from it only when it is.
pub record IsStaged {W R : Type 0} (os : Remote W R) (st : Stages W) : Type 0 where
  pub pending_calm :
      (w : W) (r : R)
      → st.panicked w ≡ false
      → st.stage w (os.source r) ≡ establishing
      → Calm st w (os.pending w r).0 (os.source r)
  pub pending_ready :
      (w : W) (r : R)
      → st.stage w (os.source r) ≡ establishing
      → (os.pending w r).1 ≡ PendingStatus.ready
      → st.stage (os.pending w r).0 (os.source r) ≡ established
  pub pending_incomplete :
      (w : W) (r : R)
      → st.stage w (os.source r) ≡ establishing
      → (os.pending w r).1 ≡ PendingStatus.incomplete
      → st.stage (os.pending w r).0 (os.source r) ≡ establishing
  pub receive_calm :
      (w : W) (r : R)
      → st.panicked w ≡ false
      → st.stage w (os.source r) ≡ established
      → Calm st w (os.receive w r).0 (os.source r)
  pub receive_stage :
      (w : W) (r : R)
      → st.stage w (os.source r) ≡ established
      → st.stage (os.receive w r).0 (os.source r) ≡ established
  pub write_calm :
      (w : W) (r : R)
      → st.panicked w ≡ false
      → st.stage w (os.source r) ≡ established
      → Calm st w (os.ready_to_write w r).0 (os.source r)
  pub write_stage :
      (w : W) (r : R)
      → st.stage w (os.source r) ≡ established
      → st.stage (os.ready_to_write w r).0 (os.source r) ≡ established

-- The same for sending.
pub record SendsStaged {W R : Type 0} (os : Remote W R) (st : Stages W) : Type 0 where
  pub send_calm :
      (w : W) (r : R) (bytes : List ℕ)
      → st.panicked w ≡ false
      → st.stage w (os.source r) ≡ established
      → Calm st w (os.send w r bytes).0 (os.source r)
  pub send_stage :
      (w : W) (r : R) (bytes : List ℕ)
      → st.stage w (os.source r) ≡ established
      → st.stage (os.send w r bytes).0 (os.source r) ≡ established

-- Listeners have no part in the stages.
pub record LeavesStages {W L K A : Type 0} (net : Local W L K A) (st : Stages W) : Type 0 where
  pub listen_unmoved :
      (w : W) (config : ListenConfig K) (addr : SocketAddr)
      → Unmoved st w (net.listen_with w config addr).0
  pub accept_unmoved : (w : W) (l : L) → Unmoved st w (net.accept w l).0
  pub send_to_unmoved :
      (w : W) (l : L) (addr : SocketAddr) (bytes : List ℕ) (w' : W) (status : SendStatus)
      → net.send_to w l addr bytes ≡ some (w', status)
      → Unmoved st w w'

-- What an adapter does when it makes the resource of a new connection.
pub record OpensStage {W R P : Type 0} (os : Remote W R) (st : Stages W)
    (new_resource : W → ℕ → P → W × R) : Type 0 where
  pub on_stream : (w : W) (stream : ℕ) (p : P) → os.source (new_resource w stream p).1 ≡ stream
  pub new_calm :
      (w : W) (stream : ℕ) (p : P)
      → st.panicked w ≡ false
      → Calm st w (new_resource w stream p).0 stream
  pub new_stage :
      (w : W) (stream : ℕ) (p : P) → st.stage (new_resource w stream p).0 stream ≡ establishing

-- No call has panicked; the registry agrees with the poll; and each registered connection is in the
-- stage that its `ready` flag says.
pub record IsSafe {W R L K A C : Type 0} (source : R → ℕ) (st : Stages W) (w : W)
    (d : TcpDriver R L K A C) : Type 0 where
  pub healthy : st.panicked w ≡ false
  pub coherent : IsCoherent source d.remote_registry
  pub staged :
      (k : ℕ) (reg : RemoteRegister R)
      → d.remote_registry.resources k ≡ some reg
      → st.stage w (source reg.resource) ≡ stage_of reg.properties.ready
