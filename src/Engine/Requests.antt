-- ===== src/Engine/Requests.antt =====
-- The calls that a worker of src/network.rs makes of a processor, as values.
use mathlib.Core.Path.{subst}
use message_io.Prelude.{ℕ, ◌≡◌, ap, Option, none, some, List, [], ◌∷◌}
use message_io.Network.ResourceId.{ResourceId, adapter_id}
use message_io.Network.Messages.{SocketAddr, Endpoint, RemoteAddr, ConnectConfig, ListenConfig}
use message_io.Network.Worker.{EventProcessor}

pub data Request (K A C : Type 0) : Type 0 where
  read write : ResourceId → Request K A C
  accept_register : ResourceId × SocketAddr → ResourceId × SocketAddr → ℕ → A → Request K A C
  connect_register : SocketAddr → ResourceId × SocketAddr → ℕ → C → ℕ → Request K A C
  listen_at : ListenConfig K → ResourceId → SocketAddr → ℕ → Request K A C
  connect_to : ConnectConfig K → ResourceId → RemoteAddr → ℕ → Request K A C
  send_to : Endpoint → List ℕ → Request K A C
  close_it : ResourceId → Request K A C
  ask_ready : ResourceId → ℕ → Request K A C

module _ {K A C : Type 0} where
  -- The adapter id by which the worker chooses the processor.
  abbrev pub slot_of : Request K A C → ℕ
  slot_of (read id) = adapter_id id
  slot_of (write id) = adapter_id id
  slot_of (accept_register _ (id, _) _ _) = adapter_id id
  slot_of (connect_register _ (id, _) _ _ _) = adapter_id id
  slot_of (listen_at _ id _ _) = adapter_id id
  slot_of (connect_to _ id _ _) = adapter_id id
  slot_of (send_to endpoint _) = adapter_id endpoint.resource_id
  slot_of (close_it id) = adapter_id id
  slot_of (ask_ready id _) = adapter_id id

  -- The connection that it asks for.
  abbrev pub asked_of : Request K A C → List ResourceId
  asked_of (connect_to _ id _ _) = id ∷ []
  asked_of _ = []

  -- A request that registers a remote does so for an id in I, and one that listens for an id in J.
  abbrev pub Allowed : (ℕ → Type 0) → (ℕ → Type 0) → Request K A C → Type 0
  Allowed I J (accept_register _ (id, _) _ _) = I id.id
  Allowed I J (connect_register _ (id, _) _ _ _) = I id.id
  Allowed I J (listen_at _ id _ _) = J id.id
  Allowed I J _ = Unit

-- If the call returns, then what it leaves is so.
abbrev pub Returns : {W P O : Type 0} → Option (W × P × List O) → (W → P → Type 0) → Type 0
Returns {W} {P} {O} r Q = (w : W) (p : P) (os : List O) → r ≡ some (w, p, os) → Q w p

-- The same of the call that a request stands for.
abbrev pub Handles :
    {W P K A C : Type 0}
    → EventProcessor W P K A C
    → Request K A C
    → W
    → P
    → (W → P → Type 0)
    → Type 0
Handles p (read id) w d Q = Returns (p.process_read w d id) Q
Handles p (write id) w d Q = Returns (p.process_write w d id) Q
Handles p (accept_register l r stream payload) w d Q =
    Returns (p.process_accept_register_remote w d l r stream payload) Q
Handles p (connect_register l r stream payload cb) w d Q =
    Returns (p.process_connect_register_remote w d l r stream payload cb) Q
Handles p (listen_at config id addr cb) w d Q = Returns (p.process_listen w d config id addr cb) Q
Handles p (connect_to config id raddr cb) w d Q =
    Returns (p.process_connect w d config id raddr cb) Q
Handles p (send_to endpoint bytes) w d Q = Returns (p.process_send w d endpoint bytes) Q
Handles p (close_it id) w d Q = Returns (p.process_close w d id) Q
Handles p (ask_ready id cb) w d Q = Returns (p.process_is_ready w d id cb) Q

module _ {W P O : Type 0} where
  left : W × P → Option (W × P × List O) → W × P
  left q none = q
  left q (some (w, p, _)) = (w, p)

  pub returned-Returns :
      (Q : W → P → Type 0) (w : W) (p : P) (os : List O)
      → Q w p
      → Returns {W = W} {P = P} {O = O} (some (w, p, os)) Q
  unfolding left
  returned-Returns Q w p os q w' p' os' e = subst (λ r. Q r.0 r.1) (ap (left (w, p)) e) q

  pub panic-Returns : (Q : W → P → Type 0) → Returns {W = W} {P = P} {O = O} none Q
  panic-Returns Q w p os e = absurd cc

module _ {W P K A C : Type 0} (p : EventProcessor W P K A C) (Q T : W → P → Type 0)
    (weaker : (w : W) (d : P) → Q w d → T w d) where
  pub Handles-weaken : (q : Request K A C) (w : W) (d : P) → Handles p q w d Q → Handles p q w d T
  Handles-weaken (read _) w d h = λ w' d' os e. weaker w' d' (h w' d' os e)
  Handles-weaken (write _) w d h = λ w' d' os e. weaker w' d' (h w' d' os e)
  Handles-weaken (accept_register _ _ _ _) w d h = λ w' d' os e. weaker w' d' (h w' d' os e)
  Handles-weaken (connect_register _ _ _ _ _) w d h = λ w' d' os e. weaker w' d' (h w' d' os e)
  Handles-weaken (listen_at _ _ _ _) w d h = λ w' d' os e. weaker w' d' (h w' d' os e)
  Handles-weaken (connect_to _ _ _ _) w d h = λ w' d' os e. weaker w' d' (h w' d' os e)
  Handles-weaken (send_to _ _) w d h = λ w' d' os e. weaker w' d' (h w' d' os e)
  Handles-weaken (close_it _) w d h = λ w' d' os e. weaker w' d' (h w' d' os e)
  Handles-weaken (ask_ready _ _) w d h = λ w' d' os e. weaker w' d' (h w' d' os e)
