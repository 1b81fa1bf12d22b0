-- ===== src/Network/Worker/Commands.antt =====
-- The order in which a worker takes its commands, and how many.
use message_io.Prelude.{
  ℕ, zero, suc, ◌≡◌, refl, Option, none, some, List, [], ◌∷◌, ◌++◌, take, drop, Option-cases, inl,
  inr,
}
use message_io.Network.Messages.{WakerCommand}
use message_io.Network.Worker.{
  EventProcessor, Output, bind, handle_command, take_commands, handle_poll_event, waker,
  max_commands,
}

module _ {W P K A C : Type 0} (drivers : EventProcessor W P K A C) where
  -- All commands of a list, one after the other.
  pub run_commands :
      W → List P → List (WakerCommand K A C) → Option (W × List P × List (Output K A C))
  run_commands w ps [] = some (w, ps, [])
  run_commands w ps (c ∷ queue) = bind (handle_command drivers w ps c) (λ (w1, ps1, first).
      bind (run_commands w1 ps1 queue) (λ (w2, ps2, later). some (w2, ps2, first ++ later)))

  leaving :
      List (WakerCommand K A C)
      → Option (W × List P × List (Output K A C))
      → Option (W × List P × List (WakerCommand K A C) × List (Output K A C))
  leaving rest o = bind o (λ (w, ps, os). some (w, ps, rest, os))

  leaving_more :
      (first : List (Output K A C)) (rest : List (WakerCommand K A C))
      (o : Option (W × List P × List (Output K A C)))
      → bind (leaving rest o) (λ (w, ps, q, later). some (w, ps, q, first ++ later))
        ≡ leaving rest (bind o (λ (w, ps, later). some (w, ps, first ++ later)))
  unfolding leaving
  leaving_more first rest none = refl
  leaving_more first rest (some (w, ps, os)) = refl

  take_commands-run :
      (n : ℕ) (w : W) (ps : List P) (queue : List (WakerCommand K A C))
      → take_commands drivers n w ps queue
        ≡ leaving (drop n queue) (run_commands w ps (take n queue))
  unfolding take_commands run_commands leaving
  take_commands-run zero w ps queue = refl
  take_commands-run (suc n) w ps [] = refl
  take_commands-run (suc n) w ps (c ∷ queue) = elim (Option-cases (handle_command drivers w ps c)) [
    | inl e ↦ rw (e) refl
    | inr ((w1, ps1, first), e) ↦ rw (e) (
        rw (take_commands-run n w1 ps1 queue)
          (leaving_more first (drop n queue) (run_commands w1 ps1 (take n queue))))
  ]

  -- On a waker event a worker handles the first 1024 commands of its queue, in the order in which
  -- they stand there, and leaves the others for the next waker event.
  pub handle_poll_event-waker :
      (w : W) (ps : List P) (queue : List (WakerCommand K A C))
      → handle_poll_event drivers w ps queue waker
        ≡ bind
            (run_commands w ps (take max_commands queue))
            (λ (w', ps', os). some (w', ps', drop max_commands queue, os))
  unfolding handle_poll_event leaving
  handle_poll_event-waker w ps queue = take_commands-run max_commands w ps queue
