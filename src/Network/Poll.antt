-- ===== src/Network/Poll.antt =====
-- `Poll::process_event` of src/network/poll.rs over what the poll of mio answers, in order.
use message_io.Prelude.{◌≡◌, refl, List, [], ◌∷◌, ◌++◌, All}
use message_io.Network.Messages.{IoResult, ok, err, interrupted}
use message_io.Network.Worker.{PollEvent, MioEvent, poll_events}

-- The calls of the callback, the panic on an error, or a poll that has not answered.
pub data PollOutcome : Type 0 where
  polled : List PollEvent → PollOutcome
  panicked waiting : PollOutcome

unfoldable pub all_events : List MioEvent → List PollEvent
all_events [] = []
all_events (e ∷ events) = poll_events e ++ all_events events

unfoldable pub process_event : List (IoResult (List MioEvent)) → PollOutcome
process_event [] = waiting
process_event (ok events ∷ _) = polled (all_events events)
process_event (err interrupted ∷ answers) = process_event answers
process_event (err _ ∷ _) = panicked

-- Interruptions of the poll are not seen: behind any number of them the events of the next answer go
-- to the callback, in order.
pub process_event-interrupted :
    (before after : List (IoResult (List MioEvent))) (events : List MioEvent)
    → All (λ a. a ≡ err interrupted) before
    → process_event (before ++ ok events ∷ after) ≡ polled (all_events events)
unfolding process_event
process_event-interrupted [] after events _ = refl
process_event-interrupted (a ∷ before) after events (e, es) =
    rw (e, process_event) (process_event-interrupted before after events es)
