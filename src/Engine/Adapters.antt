-- ===== src/Engine/Adapters.antt =====
-- The TCP, TLS and WebSocket drivers of src/adapters keep the contract of `Engine.Contract`, whatever
-- the system does.
use message_io.Prelude.{ℕ, Option, inl, inr, Option-cases, [], ◌∷◌, refl}
use message_io.Network.ResourceId.{ResourceId, adapter_id}
use message_io.Network.Messages.{SocketAddr, RemoteAddr, socket_addr, ConnectConfig, IoResult}
use message_io.Network.Adapter.{Remote, Local, ConnectionInfo}
use message_io.Network.TcpDriver.Stages.Steps.{IoResult-cases}
use message_io.Network.TcpDriver.Resource.{
  RemoteResource, LocalResource, tcp_resource, process_connect,
}
use message_io.Ssl.Adapter.{SslSystem, SslWorld, ssl_remote}
use message_io.Ssl.Driver as Ssl
use message_io.Ssl.Driver.{
  SslDriver, SslConnectPayload, Names, ssl_local, ssl_remote_connect_with, wrap_client,
  connected_resource,
}
use message_io.Ssl.Driver.Handlers as SslHandlers
use message_io.Ws.Adapter.{WsSystem, WsWorld, ws_remote}
use message_io.Ws.Driver as Ws
use message_io.Ws.Driver.{WsDriver, UrlCrate, ws_local}
use message_io.Engine.Mounted.{TcpDriverOf, tcp_processor, ssl_processor, ws_processor}
use message_io.Engine.Quiet.{Quiet-refl}
use message_io.Engine.Handled.{Handled, Quiet-Handled, post_connect_register-Handled}
use message_io.Engine.Contract.{
  Gives, IsHandling, returned-Gives, panic-Gives, checked-IsHandling, driver_processor-IsHandling,
  connect_register-Gives,
}

module _ {W K : Type 0}
    (connect_with : W → ConnectConfig K → SocketAddr → W × IoResult (ConnectionInfo K)) where
  tcp_connect-Gives :
      (I J : ℕ → Type 0) (w : W) (d : TcpDriverOf K) (config : ConnectConfig K) (id : ResourceId)
      (raddr : RemoteAddr) (cb : ℕ)
      → Gives
          (process_connect connect_with w d config id raddr cb)
          (Handled (id ∷ []) (adapter_id id) I J d)
  unfolding process_connect
  tcp_connect-Gives I J w d config id raddr cb = elim (Option-cases (socket_addr raddr)) [
    | inl e ↦ rw (e, process_connect) (panic-Gives _)
    | inr (peer, e) ↦
        rw (e, process_connect)
          (elim (IoResult-cases (connect_with w config peer).1) [
            | inl (info, done) ↦
                rw (done, process_connect)
                  (returned-Gives _ _ _ _
                    (post_connect_register-Handled (adapter_id id) I J d id _ _ _ _ _ refl))
            | inr (kind, failed) ↦
                rw (failed, process_connect)
                  (returned-Gives _ _ _ _
                    (Quiet-Handled (id ∷ []) (adapter_id id) I J d d (Quiet-refl I J d)))
          ])
  ]

  pub tcp_processor-IsHandling :
      (os : Remote W (RemoteResource K)) (net : Local W (LocalResource K) K _)
      → IsHandling (tcp_processor os net connect_with)
  unfolding tcp_processor
  tcp_processor-IsHandling os net =
      driver_processor-IsHandling os net tcp_resource _ _
        (connect_register-Gives os net tcp_resource) tcp_connect-Gives

module _ {S Q G E K N U : Type 0} (bound : ℕ) (sys : SslSystem S Q G E K)
    (sockets : Ssl.Sockets S G K) (names : Names S N U) where
  ssl_register-Gives :
      (I J : ℕ → Type 0) (w : SslWorld S Q G) (d : SslDriver G K) (l : SocketAddr)
      (r : ResourceId × SocketAddr) (stream : ℕ) (payload : SslConnectPayload K) (cb : ℕ)
      → I r.0.id
      → Gives
          (SslHandlers.process_connect_register_remote bound sys sockets names w d l r stream
            payload cb)
          (Handled [] (adapter_id r.0) I J d)
  unfolding SslHandlers.process_connect_register_remote
  ssl_register-Gives I J w d l r stream payload cb inside = elim (Option-cases payload.domain_opt) [
    | inl e ↦ rw (e, SslHandlers.process_connect_register_remote) (panic-Gives _)
    | inr (domain, e) ↦
        rw (e, SslHandlers.process_connect_register_remote)
          (elim (Option-cases (wrap_client {Q = Q} {G = G} names w.system stream domain).1) [
            | inl refused ↦
                rw (refused, SslHandlers.process_connect_register_remote) (panic-Gives _)
            | inr (wrapped, done) ↦
                rw (done, SslHandlers.process_connect_register_remote)
                  (connect_register-Gives (ssl_remote bound sys) (ssl_local sockets)
                    (connected_resource wrapped) I J _ d l r stream payload cb inside)
          ])
  ]

  ssl_connect-Gives :
      (I J : ℕ → Type 0) (w : SslWorld S Q G) (d : SslDriver G K) (config : ConnectConfig K)
      (id : ResourceId) (raddr : RemoteAddr) (cb : ℕ)
      → Gives
          (SslHandlers.process_connect sockets names w d config id raddr cb)
          (Handled (id ∷ []) (adapter_id id) I J d)
  unfolding SslHandlers.process_connect
  ssl_connect-Gives I J w d config id raddr cb =
      elim (Option-cases (SslHandlers.target names raddr)) [
        | inl e ↦ rw (e, SslHandlers.process_connect) (panic-Gives _)
        | inr ((uri, peer), e) ↦
            rw (e, SslHandlers.process_connect)
              (elim (IoResult-cases
                (ssl_remote_connect_with sockets names w.system config peer uri).1) [
                  | inl ((info, domain), done) ↦
                      rw (done, SslHandlers.process_connect)
                        (returned-Gives _ _ _ _
                          (post_connect_register-Handled (adapter_id id) I J d id _ _ _ _ _ refl))
                  | inr (kind, failed) ↦
                      rw (failed, SslHandlers.process_connect)
                        (returned-Gives _ _ _ _
                          (Quiet-Handled (id ∷ []) (adapter_id id) I J d d (Quiet-refl I J d)))
                ])
      ]

  pub ssl_processor-IsHandling : IsHandling (ssl_processor bound sys sockets names)
  unfolding ssl_processor
  ssl_processor-IsHandling =
      checked-IsHandling (λ w. w.panicked) _
        (driver_processor-IsHandling (ssl_remote bound sys) (ssl_local sockets)
          (Ssl.accepted_resource sys) _ _ ssl_register-Gives ssl_connect-Gives)

module _ {S U K : Type 0} (bound : ℕ) (sys : WsSystem S U) (sockets : Ws.Sockets S K)
    (urls : UrlCrate U) where
  ws_connect-Gives :
      (I J : ℕ → Type 0) (w : WsWorld S U) (d : WsDriver U K) (config : ConnectConfig K)
      (id : ResourceId) (raddr : RemoteAddr) (cb : ℕ)
      → Gives
          (Ws.process_connect bound sys sockets urls w d config id raddr cb)
          (Handled (id ∷ []) (adapter_id id) I J d)
  unfolding Ws.process_connect
  ws_connect-Gives I J w d config id raddr cb = elim (Option-cases (Ws.target urls raddr)) [
    | inl e ↦ rw (e, Ws.process_connect) (panic-Gives _)
    | inr ((peer, url), e) ↦
        rw (e, Ws.process_connect)
          (elim (IoResult-cases (sockets.connect_with w.system config peer).1) [
            | inl (info, done) ↦
                rw (done, Ws.process_connect)
                  (returned-Gives _ _ _ _
                    (post_connect_register-Handled (adapter_id id) I J d id _ _ _ _ _ refl))
            | inr (kind, failed) ↦
                rw (failed, Ws.process_connect)
                  (returned-Gives _ _ _ _
                    (Quiet-Handled (id ∷ []) (adapter_id id) I J d d (Quiet-refl I J d)))
          ])
  ]

  pub ws_processor-IsHandling : IsHandling (ws_processor bound sys sockets urls)
  unfolding ws_processor Ws.process_connect_register_remote
  ws_processor-IsHandling =
      checked-IsHandling (λ w. w.panicked) _
        (driver_processor-IsHandling (ws_remote bound sys) (ws_local sockets) Ws.accepted_resource _
          _ (connect_register-Gives (ws_remote bound sys) (ws_local sockets) Ws.connected_resource)
          ws_connect-Gives)

module _ {W K S1 Q G E N U1 S2 U2 : Type 0}
    (connect_with : W → ConnectConfig K → SocketAddr → W × IoResult (ConnectionInfo K))
    (os : Remote W (RemoteResource K)) (net : Local W (LocalResource K) K (Option K)) (bound : ℕ)
    (ssl_system : SslSystem S1 Q G E K) (ssl_sockets : Ssl.Sockets S1 G K) (names : Names S1 N U1)
    (ws_system : WsSystem S2 U2) (ws_sockets : Ws.Sockets S2 K) (urls : UrlCrate U2) where
  -- Whatever the system does, the drivers of TCP, TLS and WebSocket connections keep their contract:
  -- a call that returns registers a remote only for a registration and a listener only for a listen,
  -- each under the id that it was given. It posts only registrations, each in the name of the id that
  -- it registers: that of a connect, or those that it took from the generator for the connections that
  -- it accepted, in order. The ids of accepted connections have the adapter id of their listener as long
  -- as the generator is within the base values.
  pub processors-IsHandling :
      IsHandling (tcp_processor os net connect_with)
      × IsHandling (ssl_processor bound ssl_system ssl_sockets names)
      × IsHandling (ws_processor bound ws_system ws_sockets urls)
  processors-IsHandling = (
    tcp_processor-IsHandling connect_with os net,
    ssl_processor-IsHandling bound ssl_system ssl_sockets names,
    ws_processor-IsHandling bound ws_system ws_sockets urls,
  )
