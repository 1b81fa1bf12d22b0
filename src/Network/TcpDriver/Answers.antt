-- ===== src/Network/TcpDriver/Answers.antt =====
-- What `is_ready` answers (src/adapters/tcp/tcp_driver.rs), against the events that the user got.
use message_io.Prelude.{
  ◌≡◌, ◌≢◌, refl, sym, ap, ◌∙◌, true, false, Bool, Option, none, some, List, [], ◌∷◌,
}
use message_io.Network.ResourceId.{ResourceId, remote, resource_type}
use message_io.Network.Messages.{SocketAddr, NetEvent, connected, accepted, message}
use message_io.Network.Adapter.{Remote, Local}
use message_io.Network.TcpDriver.{TcpDriver}
use message_io.Network.TcpDriver.Handlers.{process_is_ready}
use message_io.Network.TcpDriver.Lifecycle.{Life, absent, accepting, live, Lives}
use message_io.Network.TcpDriver.Reads.{life, IsAlwaysWritable}
use message_io.Network.TcpDriver.Commands.{readiness, process_is_ready-readiness}
use message_io.Network.TcpDriver.Runs.{Readiness, run_polls, run_polls-Lives}

-- What an event tells of its connection: it is ready, or it is gone.
abbrev pub told_by : NetEvent → Option Bool
told_by (connected _ true) = some true
told_by (connected _ false) = none
told_by (accepted _ _) = some true
told_by (message _ _) = some true
told_by (NetEvent.disconnected _) = none

-- What the last event tells, or what was so before when there is none.
abbrev pub told : Option Bool → List NetEvent → Option Bool
told before [] = before
told before (e ∷ es) = told (told_by e) es

not_live : (l : ResourceId) (a b : SocketAddr) → live b ≢ accepting l a
not_live l a b e = cc

not_absent : (l : ResourceId) (a : SocketAddr) → absent ≢ accepting l a
not_absent l a e = cc

Lives-told :
    (id : ResourceId) {s t : Life} {es : List NetEvent}
    → Lives id s es t
    → ((l : ResourceId) (a : SocketAddr) → s ≢ accepting l a)
    → readiness t ≡ told (readiness s) es
unfolding readiness
Lives-told id Lives.same other = refl
Lives-told id (Lives.established b h) other = Lives-told id h (λ l a. not_live l a b)
Lives-told id (Lives.refused b h) other = Lives-told id h (λ l a. not_absent l a)
Lives-told id (Lives.welcomed m b h) other = Lives-told id h (λ l a. not_live l a b)
Lives-told id (Lives.dropped m b h) other = absurd (other m b refl)
Lives-told id (Lives.received b bytes h) other = Lives-told id h (λ l a. not_live l a b)
Lives-told id (Lives.lost b h) other = Lives-told id h (λ l a. not_absent l a)

module _ {W R L K A C : Type 0} (os : Remote W R) (net : Local W L K A) where
  -- Behind any sequence of readiness events of a remote id, `is_ready` answers what the last network
  -- event told the user: ready behind a connection, an acceptance or a message, nothing behind a
  -- refusal or a disconnection; with no network event, it answers as before. The adapter keeps the
  -- trait's `ready_to_write`, and the id is none that a listener accepted and that is not ready yet:
  -- such a one is dropped without an event.
  pub run_polls-process_is_ready :
      (w : W) (d : TcpDriver R L K A C) (id : ResourceId) (rs : List Readiness)
      → resource_type id ≡ remote
      → IsAlwaysWritable os
      → ((l : ResourceId) (a : SocketAddr) → life d id ≢ accepting l a)
      → process_is_ready os net (run_polls os net w d id rs).1 id
        ≡ told (process_is_ready os net d id) (run_polls os net w d id rs).2
  run_polls-process_is_ready w d id rs is_remote fine other =
      let es = (run_polls os net w d id rs).2 in
      process_is_ready-readiness os net (run_polls os net w d id rs).1 id is_remote
      ∙ Lives-told id (run_polls-Lives os net w d id rs is_remote fine) other
      ∙ ap (λ o. told o es) (sym (process_is_ready-readiness os net d id is_remote))
