-- ===== src/Network/TcpDriver/Processor.antt =====
-- `impl EventProcessor` of src/adapters/tcp/tcp_driver.rs: the handlers of a driver as the worker
-- calls them. The worker drops the status of a send and the answer of a close.
use message_io.Prelude.{ℕ, Option, none, some, List, [], ◌∷◌}
use message_io.Network.ResourceId.{ResourceId}
use message_io.Network.Messages.{SocketAddr, RemoteAddr, ConnectConfig, Call, ready_answer}
use message_io.Network.Adapter.{Remote, Local}
use message_io.Network.Worker.{EventProcessor}
use message_io.Network.TcpDriver.{TcpDriver, process_read, process_write}
use message_io.Network.TcpDriver.Handlers.{
  process_accept_register_remote, process_listen, process_send, process_close, process_is_ready,
}

-- `accept_resource` makes the resource of an accepted connection; the two handlers that the drivers
-- do not share are arguments. A callback that does nothing has the number 0.
unfoldable pub driver_processor :
    {W R L K A C : Type 0}
    → Remote W R
    → Local W L K A
    → (W → ℕ → A → W × R)
    → (W
        → TcpDriver R L K A C
        → SocketAddr
        → ResourceId × SocketAddr
        → ℕ
        → C
        → ℕ
        → Option (W × TcpDriver R L K A C × List Call))
    → (W
        → TcpDriver R L K A C
        → ConnectConfig K
        → ResourceId
        → RemoteAddr
        → ℕ
        → Option (W × TcpDriver R L K A C × List Call))
    → EventProcessor W (TcpDriver R L K A C) K A C
driver_processor os net accept_resource connect_register connect = record {
  process_read = λ w d id. some (process_read os net w d id);
  process_write = λ w d id. some (process_write os net w d id);
  process_accept_register_remote = λ w d local_pair remote_pair stream payload. some (
      process_accept_register_remote os net accept_resource w d local_pair remote_pair stream
        payload 0);
  process_connect_register_remote = connect_register;
  process_listen = λ w d config id addr cb. some (process_listen os net w d config id addr cb);
  process_connect = connect;
  process_send = λ w d endpoint bytes. elim (process_send os net w d endpoint bytes) [
    | none ↦ none
    | some (w', _) ↦ some (w', d, [])
  ];
  process_close = λ w d id. some (w, (process_close os net d id).0, []);
  process_is_ready = λ w d id cb. some (w, d, ready_answer cb (process_is_ready os net d id) ∷ []);
}
