-- ===== src/Node/Tests.antt =====
-- The theorems on the handler at concrete inputs.
use message_io.Prelude.{
  ℕ, ◌<◌, ◌≡◌, refl, arith, Bool, true, false, Option, some, [], ◌∷◌, ltb, if◌then◌else◌,
}
use message_io.Network.ResourceId.{ResourceType, remote, resource_type}
use message_io.Network.Messages.{SocketAddr, v4, Endpoint, ok, send, close}
use message_io.Network.Worker.{bind}
use message_io.Node.{NodeHandler, connect_sync_with, send_to_endpoint, close_resource}
use message_io.Node.ConnectSync.{outcome, connect_sync_with-answer}
use message_io.Node.Routing.{Posted, send-close}

abbrev here : SocketAddr
here = v4 127 9000

abbrev endpoint : Endpoint
endpoint = record { resource_id = record { id = 6 }; addr = here }

-- Ready at the third try.
abbrev third : ℕ → Option Bool
third j = if ltb j 2 then some false else some true

third_pending : (j : ℕ) → j < 2 → third j ≡ some false
third_pending j h = ground arith

connect_sync_with-answer_example :
    connect_sync_with third (ok (endpoint, here)) ≡ outcome third endpoint here (some true)
connect_sync_with-answer_example =
    connect_sync_with-answer third endpoint here 2 (some true) (omega arith) third_pending refl
      (λ e. cc)

abbrev handler : NodeHandler ℕ ℕ ℕ
handler = record {
  remote_id_generator = record { last = 7; kind = remote };
  local_id_generator = record { last = 1; kind = ResourceType.local };
  master = [];
  workers = [] ∷ [] ∷ [] ∷ [] ∷ [];
  running = true;
}

endpoint_is_remote : resource_type endpoint.resource_id ≡ remote
unfolding resource_type
endpoint_is_remote = refl

send-close_example :
    (h' : NodeHandler ℕ ℕ ℕ) × (bind
        (send_to_endpoint handler endpoint (1 ∷ []))
        (λ k. close_resource k endpoint.resource_id)
      ≡ some h')
    × Posted handler h' endpoint.resource_id
        (send endpoint (1 ∷ []) ∷ close endpoint.resource_id ∷ [])
send-close_example = send-close handler endpoint (1 ∷ []) (omega arith) endpoint_is_remote
