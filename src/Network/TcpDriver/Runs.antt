-- ===== src/Network/TcpDriver/Runs.antt =====
-- The readiness events of one id, one after the other, as a worker hands them to the driver.
use message_io.Prelude.{◌≡◌, List, [], ◌∷◌, ◌++◌}
use message_io.Network.ResourceId.{ResourceId, remote, resource_type}
use message_io.Network.Messages.{NetEvent}
use message_io.Network.Adapter.{Remote, Local}
use message_io.Network.TcpDriver.{TcpDriver, process_read, process_write}
use message_io.Network.TcpDriver.Lifecycle.{Lives, Lives-append}
use message_io.Network.TcpDriver.Reads.{
  life, IsAlwaysWritable, process_read-Lives, process_write-Lives,
}

pub data Readiness : Type 0 where
  readable writable : Readiness

module _ {W R L K A C : Type 0} (os : Remote W R) (net : Local W L K A) where
  -- The arms of `process_poll_event` for `NetworkRead` and `NetworkWrite`.
  abbrev pub process_readiness :
      W → TcpDriver R L K A C → ResourceId → Readiness → W × TcpDriver R L K A C × List NetEvent
  process_readiness w d id readable = process_read os net w d id
  process_readiness w d id writable = process_write os net w d id

  abbrev pub run_polls :
      W
      → TcpDriver R L K A C
      → ResourceId
      → List Readiness
      → W × TcpDriver R L K A C × List NetEvent
  run_polls w d id [] = (w, d, [])
  run_polls w d id (r ∷ rs) =
      let (w1, d1, first) = process_readiness w d id r in
      let (w2, d2, later) = run_polls w1 d1 id rs in (w2, d2, first ++ later)

  -- Over any sequence of readiness events of a remote id, the events that the user gets are one
  -- life of its connection: established, accepted or refused at most once and before every message,
  -- and nothing after a refusal or a disconnection. The adapter keeps the trait's `ready_to_write`,
  -- which answers `true`.
  pub run_polls-Lives :
      (w : W) (d : TcpDriver R L K A C) (id : ResourceId) (rs : List Readiness)
      → resource_type id ≡ remote
      → IsAlwaysWritable os
      → Lives id (life d id) (run_polls w d id rs).2 (life (run_polls w d id rs).1 id)
  run_polls-Lives w d id [] is_remote fine = Lives.same
  run_polls-Lives w d id (readable ∷ rs) is_remote fine =
      let (w1, d1, first) = process_read os net w d id in
      Lives-append id (process_read-Lives os net w d id is_remote)
        (run_polls-Lives w1 d1 id rs is_remote fine)
  run_polls-Lives w d id (writable ∷ rs) is_remote fine =
      let (w1, d1, first) = process_write os net w d id in
      Lives-append id (process_write-Lives os net w d id is_remote fine)
        (run_polls-Lives w1 d1 id rs is_remote fine)
