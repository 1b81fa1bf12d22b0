-- ===== src/Network/TcpRemote/Receive.antt =====
-- What `receive` makes of the answers of the system.
use message_io.Prelude.{ℕ, ◌≡◌, refl, some, List, [], ◌∷◌, ◌++◌, All}
use message_io.Network.Messages.{ReadStatus, interrupted, IoResult, ok, err}
use message_io.Network.TcpRemote.{end, reaction, receive}

-- The answers after which the loop goes on, and the packets that they are.
pub data IsRunning : IoResult (List ℕ) → Type 0 where
  got : (b : ℕ) (bytes : List ℕ) → IsRunning (ok (b ∷ bytes))
  retried : IsRunning (err interrupted)

abbrev pub packet_of : IoResult (List ℕ) → List (List ℕ)
packet_of (ok []) = []
packet_of (ok (b ∷ bytes)) = (b ∷ bytes) ∷ []
packet_of (err _) = []

abbrev pub packets_of : List (IoResult (List ℕ)) → List (List ℕ)
packets_of [] = []
packets_of (r ∷ reads) = packet_of r ++ packets_of reads

-- The loop gives every packet that was read before the answer that ends it, in order, and leaves
-- the answers behind it; an interrupted read is tried again and gives none.
pub receive-run :
    (reads rest : List (IoResult (List ℕ))) (r : IoResult (List ℕ)) (status : ReadStatus)
    → All IsRunning reads
    → reaction r ≡ end status
    → receive (reads ++ r ∷ rest) ≡ some (packets_of reads, status, rest)
unfolding receive reaction
receive-run [] rest r status h e = rw (e, receive) refl
receive-run (x ∷ reads) rest r status (IsRunning.got b bytes, hs) e =
    rw (receive-run reads rest r status hs e, receive) refl
receive-run (x ∷ reads) rest r status (IsRunning.retried, hs) e =
    receive-run reads rest r status hs e
