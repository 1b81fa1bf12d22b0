-- ===== src/Engine/Commands.antt =====
-- What a worker of src/network.rs does with a command or an event, as the request that it makes of
-- the processor in the slot of the id.
use message_io.Prelude.{
  ℕ, ◌≡◌, refl, inl, inr, Option, none, some, List, [], ◌∷◌, ◌++◌, map, get_elem?, set,
  Option-cases,
}
use message_io.Network.ResourceId.{ResourceId, adapter_id}
use message_io.Network.Messages.{
  WakerCommand, greet, accept_register_remote, connect_register_remote, listen, connect, send,
  send_sync, close, is_ready, stop, sent_answer,
}
use message_io.Network.Worker.{
  EventProcessor, Output, called, bind, with_processor, handle_command, handle_poll_event,
  network_read, network_write,
}
use message_io.Engine.Requests.{
  Request, read, write, accept_register, connect_register, listen_at, connect_to, send_to, close_it,
  ask_ready, slot_of, Returns, Handles, returned-Returns, panic-Returns,
}

module _ {K A C : Type 0} where
  abbrev pub request_of : WakerCommand K A C → Option (Request K A C)
  request_of (greet _) = none
  request_of (accept_register_remote l r stream payload) = some (accept_register l r stream payload)
  request_of (connect_register_remote l r stream payload cb) =
      some (connect_register l r stream payload cb)
  request_of (listen config id addr cb) = some (listen_at config id addr cb)
  request_of (connect config id raddr cb) = some (connect_to config id raddr cb)
  request_of (send endpoint bytes) = some (send_to endpoint bytes)
  request_of (send_sync endpoint bytes _) = some (send_to endpoint bytes)
  request_of (close id) = some (close_it id)
  request_of (is_ready id cb) = some (ask_ready id cb)
  request_of stop = none

module _ {W P K A C : Type 0} where
  -- The request leaves, in the list of processors, what Q asks for.
  abbrev pub Serves :
      EventProcessor W P K A C → W → List P → (W → List P → Type 0) → Request K A C → Type 0
  Serves drivers w ps Q q =
      (p : P)
      → get_elem? ps (slot_of q) ≡ some p
      → Handles drivers q w p (λ w' p'. Q w' (set ps (slot_of q) p'))

  -- The same of a command: one that is no request changes nothing.
  abbrev pub ServesCommand :
      EventProcessor W P K A C
      → W
      → List P
      → (W → List P → Type 0)
      → Option (Request K A C)
      → Type 0
  ServesCommand drivers w ps Q none = Q w ps
  ServesCommand drivers w ps Q (some q) = Serves drivers w ps Q q

-- A result that goes on with other outputs.
more-Returns :
    {W P O V : Type 0} {T : W → P → Type 0} (r : Option (W × P × List O)) (g : List O → List V)
    → Returns r T
    → Returns (bind r (λ (w, p, os). some (w, p, g os))) T
more-Returns {T = T} none g given = panic-Returns T
more-Returns {T = T} (some (w, p, os)) g given = returned-Returns T w p (g os) (given w p os refl)

module _ {W P K A C : Type 0} (Q : W → List P → Type 0) where
  with_processor-Returns :
      {O : Type 0} (drivers : EventProcessor W P K A C) (output : O → Output K A C) (w : W)
      (ps : List P) (a : ℕ) (f : P → Option (W × P × List O))
      → ((p : P) → get_elem? ps a ≡ some p → Returns (f p) (λ w' p'. Q w' (set ps a p')))
      → Returns (with_processor drivers output ps a f) Q
  unfolding with_processor
  with_processor-Returns drivers output w ps a f given = elim (Option-cases (get_elem? ps a)) [
    | inl gone ↦ rw (gone, with_processor) (panic-Returns Q)
    | inr (p, there) ↦
        rw (there, with_processor)
          (elim (Option-cases (f p)) [
            | inl e ↦ rw e (panic-Returns Q)
            | inr ((w', p', os), e) ↦
                rw e
                  (returned-Returns Q w' (set ps a p') (map output os) (given p there w' p' os e))
          ])
  ]

  pub command-Returns :
      (drivers : EventProcessor W P K A C) (w : W) (ps : List P) (c : WakerCommand K A C)
      → ServesCommand drivers w ps Q (request_of c)
      → Returns (handle_command drivers w ps c) Q
  unfolding handle_command
  command-Returns drivers w ps (greet text) given = returned-Returns Q w ps _ given
  command-Returns drivers w ps stop given = returned-Returns Q w ps _ given
  command-Returns drivers w ps (accept_register_remote l r stream payload) given =
      with_processor-Returns drivers called w ps (adapter_id r.0) _ (λ p there.
        more-Returns (drivers.process_accept_register_remote w p l r stream payload) (λ _. [])
          (given p there))
  command-Returns drivers w ps (connect_register_remote l r stream payload cb) given =
      with_processor-Returns drivers called w ps (adapter_id r.0) _ given
  command-Returns drivers w ps (listen config id addr cb) given =
      with_processor-Returns drivers called w ps (adapter_id id) _ given
  command-Returns drivers w ps (connect config id raddr cb) given =
      with_processor-Returns drivers called w ps (adapter_id id) _ given
  command-Returns drivers w ps (send endpoint bytes) given =
      with_processor-Returns drivers called w ps (adapter_id endpoint.resource_id) _ given
  command-Returns drivers w ps (send_sync endpoint bytes cb) given =
      with_processor-Returns drivers called w ps (adapter_id endpoint.resource_id) _ (λ p there.
        more-Returns (drivers.process_send w p endpoint bytes)
          (λ calls. calls ++ sent_answer cb ∷ []) (given p there))
  command-Returns drivers w ps (close id) given =
      with_processor-Returns drivers called w ps (adapter_id id) _ given
  command-Returns drivers w ps (is_ready id cb) given =
      with_processor-Returns drivers called w ps (adapter_id id) _ given

  -- What `step` makes of an event.
  abbrev without_queue :
      Option (W × List P × List (WakerCommand K A C) × List (Output K A C))
      → Option (W × List P × List (Output K A C))
  without_queue r = bind r (λ (w, ps, _, os). some (w, ps, os))

  passed-Returns :
      (r : Option (W × List P × List (Output K A C)))
      → Returns r Q
      → Returns (without_queue (bind r (λ (w, ps, os). some (w, ps, [], os)))) Q
  passed-Returns none given = panic-Returns Q
  passed-Returns (some (w, ps, os)) given = given

  pub readable-Returns :
      (drivers : EventProcessor W P K A C) (w : W) (ps : List P) (id : ResourceId)
      → Serves drivers w ps Q (read id)
      → Returns (without_queue (handle_poll_event drivers w ps [] (network_read id))) Q
  unfolding handle_poll_event
  readable-Returns drivers w ps id given =
      passed-Returns _ (with_processor-Returns drivers _ w ps (adapter_id id) _ given)

  pub writable-Returns :
      (drivers : EventProcessor W P K A C) (w : W) (ps : List P) (id : ResourceId)
      → Serves drivers w ps Q (write id)
      → Returns (without_queue (handle_poll_event drivers w ps [] (network_write id))) Q
  unfolding handle_poll_event
  writable-Returns drivers w ps id given =
      passed-Returns _ (with_processor-Returns drivers _ w ps (adapter_id id) _ given)
