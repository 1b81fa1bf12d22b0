-- ===== src/Network/Tests.antt =====
-- The theorems on the network engine at concrete inputs.
use message_io.Prelude.{
  ℕ, suc, ◌≤◌, ◌≡◌, ◌≢◌, ◌↔◌, refl, arith, ◌⊎◌, inl, inr, true, none, some, List, [], ◌∷◌, length,
}
use message_io.Network.ResourceId.{
  local, remote, new, resource_type, adapter_id, base_value, from_token, to_token,
  ResourceIdGenerator, generate_all,
}
use message_io.Network.ResourceId.Fields.{new_fields, from_token-to_token}
use message_io.Network.ResourceId.Generator.{AllDistinct, generate_all-AllDistinct}
use message_io.Network.Transport.{ssl, ws, id, from_u8, from_u8-id}
use message_io.Network.Messages.{
  SendStatus, sent, ReadStatus, IoResult, ok, err, would_block, interrupted,
}
use message_io.Network.Registry.{ResourceRegistry, register, deregister, get}
use message_io.Network.Registry.Coherence.{IsCoherent, register-IsCoherent, deregister-IsCoherent}
use message_io.Network.TcpRemote.{reaction, receive, send}
use message_io.Network.TcpRemote.Receive.{receive-run, got, retried}
use message_io.Network.TcpRemote.Send.{Delivery, send-Delivery, send-sent}

new_fields_example :
    (adapter_id (new 3 local 5) ≡ 3)
    × (resource_type (new 3 local 5) ≡ local)
    × (base_value (new 3 local 5) ≡ 5)
new_fields_example = new_fields 3 5 local (omega arith) (omega arith)

from_token-to_token_example :
    (from_token (to_token (new 0 remote 7)) ≡ new 0 remote 7) × (to_token (new 0 remote 7) ≢ 0)
from_token-to_token_example = from_token-to_token 0 7 remote (omega arith) (omega arith)

abbrev first_remote : ResourceIdGenerator
first_remote = record { last = 1; kind = remote }

generate_all-AllDistinct_example : AllDistinct (generate_all first_remote (0 ∷ 3 ∷ 0 ∷ []))
generate_all-AllDistinct_example =
    generate_all-AllDistinct first_remote (0 ∷ 3 ∷ 0 ∷ [])
      (omega arith, (omega arith, (omega arith, tt))) (omega arith)

from_u8-id_example :
    ((from_u8 (id ssl) ≡ some ssl) ↔ (ssl ≢ ws)) × (from_u8 (id ws) ≡ none) × (id ssl ≤ 127)
from_u8-id_example = from_u8-id ssl

abbrev source_of_number : ℕ → ℕ
source_of_number s = s

abbrev no_registers : ResourceRegistry ℕ ℕ
no_registers = record { resources = λ _. none; polled = λ _. none }

no_registers-IsCoherent : IsCoherent source_of_number no_registers
no_registers-IsCoherent = record {
  watched = λ k reg e. cc;
  owned = λ s e h. cc;
  separate = λ j k a b ha hb same. cc;
}

register-IsCoherent_example :
    IsCoherent source_of_number
      (register source_of_number no_registers (record { id = 4 }) 11 0 true)
register-IsCoherent_example =
    register-IsCoherent source_of_number no_registers (record { id = 4 }) 11 0 true
      no_registers-IsCoherent refl refl

abbrev one_register : ResourceRegistry ℕ ℕ
one_register = register source_of_number no_registers (record { id = 4 }) 11 0 true

deregister-IsCoherent_example :
    IsCoherent source_of_number (deregister source_of_number one_register (record { id = 4 })).0
    × (get source_of_number
          (deregister source_of_number one_register (record { id = 4 })).0
          (record { id = 4 })
        ≡ none)
    × (((deregister source_of_number one_register (record { id = 4 })).1 ≡ true)
        ↔ (get source_of_number one_register (record { id = 4 }) ≢ none))
deregister-IsCoherent_example =
    deregister-IsCoherent source_of_number one_register (record { id = 4 })
      register-IsCoherent_example

receive-run_example :
    receive (ok (1 ∷ 2 ∷ []) ∷ err interrupted ∷ ok (3 ∷ []) ∷ err would_block ∷ ok (9 ∷ []) ∷ [])
    ≡ some ((1 ∷ 2 ∷ []) ∷ (3 ∷ []) ∷ [], ReadStatus.wait_next_event, ok (9 ∷ []) ∷ [])
unfolding reaction
receive-run_example =
    receive-run (ok (1 ∷ 2 ∷ []) ∷ err interrupted ∷ ok (3 ∷ []) ∷ []) (ok (9 ∷ []) ∷ [])
      (err would_block) ReadStatus.wait_next_event (got 1 (2 ∷ []), (retried, (got 3 [], tt))) refl

-- A system that takes one byte at a time, and counts its calls.
abbrev write_one : ℕ → List ℕ → ℕ × IoResult ℕ
write_one w [] = (suc w, ok 0)
write_one w (_ ∷ _) = (suc w, ok 1)

ok-inj : (a b : ℕ) → ◌≡◌ {A = IoResult ℕ} (ok a) (ok b) → a ≡ b
ok-inj a b e = cc

write_one-IsBounded :
    (w : ℕ) (bytes : List ℕ) (n : ℕ) → (write_one w bytes).1 ≡ ok n → n ≤ length bytes
write_one-IsBounded w [] n e = omega (arith, ok-inj 0 n e)
write_one-IsBounded w (_ ∷ _) n e = omega (arith, ok-inj 1 n e)

write_one-IsEager :
    (w : ℕ) (bytes : List ℕ)
    → (n : ℕ) × ((write_one w bytes).1 ≡ ok n) × ((1 ≤ n) ⊎ (length bytes ≡ 0))
write_one-IsEager w [] = (0, refl, inr refl)
write_one-IsEager w (_ ∷ _) = (1, refl, inl (omega arith))

send-Delivery_example :
    (w' : ℕ) × (out : List ℕ) × (status : SendStatus) × (send write_one 0 (5 ∷ 6 ∷ [])
      ≡ some (w', out, status))
    × Delivery write_one (5 ∷ 6 ∷ []) out status
send-Delivery_example = send-Delivery write_one 0 (5 ∷ 6 ∷ []) write_one-IsBounded

send-sent_example :
    (w' : ℕ) × (out : List ℕ) × (send write_one 0 (5 ∷ 6 ∷ []) ≡ some (w', out, sent))
send-sent_example =
    send-sent write_one 0 (5 ∷ 6 ∷ []) write_one-IsBounded write_one-IsEager (omega arith)
