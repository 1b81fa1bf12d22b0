-- ===== src/Node/Task.antt =====
-- The loop of `launch_thread` of src/node.rs: a thread runs its worker as long as the node is running.
-- `stops` says of which events the callback of the user stops the node.
use message_io.Prelude.{
  ◌≡◌, refl, Bool, true, false, ◌&&◌, not, Option, some, List, [], ◌∷◌, ◌++◌, append-nil,
}
use message_io.Network.Messages.{WakerCommand}
use message_io.Network.Worker.{
  EventProcessor, PollEvent, NodeEvent, Output, emitted, called, bind, process_poll_event,
}

module _ {K A C : Type 0} (stops : NodeEvent K A C → Bool) where
  -- Whether the node runs behind these outputs of a worker.
  unfoldable pub stays : List (Output K A C) → Bool
  stays [] = true
  stays (emitted e ∷ outputs) = not (stops e) && stays outputs
  stays (called _ ∷ outputs) = stays outputs

module _ {W P K A C : Type 0} (drivers : EventProcessor W P K A C)
    (stops : NodeEvent K A C → Bool) where
  -- The worker over the returns of its poll, each the list of its events. Whether the node runs is
  -- asked before each, and whether it still runs is the first of the result.
  unfoldable pub run_worker :
      Bool
      → W
      → List P
      → List (WakerCommand K A C)
      → List (List PollEvent)
      → Option (Bool × W × List P × List (WakerCommand K A C) × List (Output K A C))
  run_worker running w ps queue [] = some (running, w, ps, queue, [])
  run_worker false w ps queue (events ∷ polls) = some (false, w, ps, queue, [])
  run_worker true w ps queue (events ∷ polls) =
      bind (process_poll_event drivers w ps queue events) (λ (w1, ps1, queue1, first).
        bind (run_worker (stays stops first) w1 ps1 queue1 polls)
          (λ (running, w2, ps2, queue2, later). some (running, w2, ps2, queue2, first ++ later)))

  -- A node that is stopped handles nothing more.
  pub run_worker-stopped :
      (w : W) (ps : List P) (queue : List (WakerCommand K A C)) (polls : List (List PollEvent))
      → run_worker false w ps queue polls ≡ some (false, w, ps, queue, [])
  unfolding run_worker
  run_worker-stopped w ps queue [] = refl
  run_worker-stopped w ps queue (events ∷ polls) = refl

  -- A stop in the callback ends the loop behind the poll in which it is called: this poll is handled
  -- to its end, with what comes behind the stop, and no poll after it.
  pub run_worker-stop :
      (w w1 : W) (ps ps1 : List P) (queue queue1 : List (WakerCommand K A C))
      (events : List PollEvent) (polls : List (List PollEvent)) (first : List (Output K A C))
      → process_poll_event drivers w ps queue events ≡ some (w1, ps1, queue1, first)
      → stays stops first ≡ false
      → run_worker true w ps queue (events ∷ polls) ≡ some (false, w1, ps1, queue1, first)
  unfolding run_worker
  run_worker-stop w w1 ps ps1 queue queue1 events polls first handled stopped =
      rw (handled, stopped, run_worker-stopped w1 ps1 queue1 polls, append-nil first) refl
