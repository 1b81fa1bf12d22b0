-- ===== src/Ws/Driver/Safe.antt =====
-- No `unreachable!` and no `unwrap` of the WebSocket adapter is reached through its driver.
use message_io.Prelude.{ℕ, ◌≡◌, refl, ap, false, some}
use message_io.Network.ResourceId.{ResourceIdGenerator}
use message_io.Network.Registry.{new_registry}
use message_io.Network.TcpDriver as Tcp
use message_io.Network.TcpDriver.Stages.{Calm, LeavesStages, OpensStage, IsSafe}
use message_io.Network.TcpDriver.Stages.Reach.{Reaches, IsDriven, reaches-IsSafe}
use message_io.Ws.Adapter.{
  WsSystem, WsWorld, set_state, handshake, connect, accept, ws_remote, RemoteState,
}
use message_io.Ws.Adapter.Staged.{
  state_stage, ws_stages, set-same, set-other, ws_remote-IsStaged, ws_remote-SendsStaged,
}
use message_io.Ws.Driver.{
  WsDriver, WsConnectPayload, Sockets, ws_local, accepted_resource, connected_resource, new_driver,
}

module _ {S U K : Type 0} (bound : ℕ) (sys : WsSystem S U) (sockets : Sockets S K) where
  ws_local-LeavesStages : LeavesStages (ws_local {U = U} sockets) ws_stages
  ws_local-LeavesStages = record {
    listen_unmoved = λ w config addr. record { healthy = λ h. h; stages = λ t. refl };
    accept_unmoved = λ w l. record { healthy = λ h. h; stages = λ t. refl };
    send_to_unmoved = λ w l addr bytes w' status e. cc;
  }

  set_state-Calm :
      (w : WsWorld S U) (cell : ℕ) (s : RemoteState U)
      → w.panicked ≡ false
      → Calm ws_stages w (set_state w cell s) cell
  unfolding set_state
  set_state-Calm w cell s healthy = record {
    healthy = healthy;
    apart = λ t other. ap (λ x. state_stage x) (set-other w cell s t other);
  }

  accepted-OpensStage : OpensStage (ws_remote bound sys {K = K}) ws_stages accepted_resource
  unfolding accepted_resource
  accepted-OpensStage = record {
    on_stream = λ w stream p. refl;
    new_calm =
        λ w stream p healthy. set_state-Calm w stream (handshake (some (accept stream))) healthy;
    new_stage = λ w stream p.
        ap (λ x. state_stage x) (set-same w stream (handshake (some (accept stream))));
  }

  connected-OpensStage : OpensStage (ws_remote bound sys {K = K}) ws_stages connected_resource
  unfolding connected_resource
  connected-OpensStage = record {
    on_stream = λ w stream p. refl;
    new_calm = λ w stream p healthy.
        set_state-Calm w stream (handshake (some (connect p.url stream))) healthy;
    new_stage = λ w stream p.
        ap (λ x. state_stage x) (set-same w stream (handshake (some (connect p.url stream))));
  }

  pub ws-IsDriven :
      IsDriven {C = WsConnectPayload U K}
        (ws_remote bound sys {K = K})
        (ws_local sockets)
        ws_stages
        accepted_resource
        connected_resource
  ws-IsDriven = record {
    staged = ws_remote-IsStaged bound sys;
    sends = ws_remote-SendsStaged bound sys;
    still = ws_local-LeavesStages;
    accepts = accepted-OpensStage;
    connects = connected-OpensStage;
  }

  pub new_driver-IsSafe :
      (w : WsWorld S U) (rgen : ResourceIdGenerator)
      → w.panicked ≡ false
      → IsSafe (λ r. r.state) ws_stages w (new_driver {U = U} {K = K} rgen)
  unfolding new_driver Tcp.new_driver new_registry
  new_driver-IsSafe w rgen healthy = record {
    healthy = healthy;
    coherent = record {
      watched = λ k reg e. cc;
      owned = λ s e h. cc;
      separate = λ j k a b ha hb same. cc;
    };
    staged = λ k reg e. cc;
  }

  -- From a new driver and a system in which nothing has panicked, whatever the handlers of the
  -- WebSocket driver are given and in whatever order, no `unreachable!` and no `unwrap` of the
  -- adapter's `receive`, `send` and `pending` is reached: a registered connection that is ready is a
  -- web socket, and one that is not has its handshake. New connections have an unused id and a
  -- stream that is not watched, and what the system does by itself touches no connection.
  pub ws_driver-IsSafe :
      (w : WsWorld S U) (rgen : ResourceIdGenerator) (w' : WsWorld S U) (d' : WsDriver U K)
      → w.panicked ≡ false
      → Reaches
          (ws_remote bound sys)
          (ws_local sockets)
          ws_stages
          accepted_resource
          connected_resource
          w
          (new_driver rgen)
          w'
          d'
      → IsSafe (λ r. r.state) ws_stages w' d'
  ws_driver-IsSafe w rgen w' d' healthy steps =
      reaches-IsSafe (ws_remote bound sys) (ws_local sockets) ws_stages accepted_resource
        connected_resource w (new_driver rgen) w' d' ws-IsDriven (new_driver-IsSafe w rgen healthy)
        steps
