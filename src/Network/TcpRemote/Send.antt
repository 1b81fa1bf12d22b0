-- ===== src/Network/TcpRemote/Send.antt =====
-- What `send` does with the answers of the system.
use message_io.Prelude.{
  ℕ, zero, suc, ◌+◌, ◌-◌, ◌≤◌, ◌≡◌, ◌≢◌, refl, sym, ap, ◌∙◌, arith, ◌⊎◌, inl, inr, Bool, true,
  false, some, List, [], ◌∷◌, ◌++◌, length, take, drop, ltb, ◌==◌, ==_iff, Bool-cases, length-drop,
  take_all,
}
use message_io.Network.Messages.{
  SendStatus, sent, resource_not_found, send_abort, IoResult, ok, err, would_block, interrupted,
  connection_reset, not_connected, invalid_input, other_kind,
}
use message_io.Network.TcpRemote.{took, refused, lost, taking, send_loop, send, max_send_tries}

not_true : (b : Bool) → b ≡ false → b ≢ true
not_true b f t = cc

take-nil : (n : ℕ) → take {A = ℕ} n [] ≡ []
take-nil zero = refl
take-nil (suc n) = refl

take_more :
    (total n : ℕ) (bytes : List ℕ)
    → take total bytes ++ take n (drop total bytes) ≡ take (total + n) bytes
take_more zero n bytes = let e : zero + n ≡ n = omega arith in ap (λ k. take k bytes) (sym e)
take_more (suc total) n [] = take-nil n ∙ sym (take-nil (suc total + n))
take_more (suc total) n (b ∷ bytes) =
    let e : suc total + n ≡ suc (total + n) = omega arith in
    ap (λ xs. b ∷ xs) (take_more total n bytes) ∙ ap (λ k. take k (b ∷ bytes)) (sym e)

take_whole : (n : ℕ) (bytes : List ℕ) → n ≡ length bytes → take n bytes ≡ bytes
take_whole n bytes e = take_all n bytes (omega (arith, e))

module _ {W : Type 0} (write : W → List ℕ → W × IoResult ℕ) where
  -- A write takes no more than it is offered.
  abbrev pub IsBounded : Type 0
  IsBounded = (w : W) (bytes : List ℕ) (n : ℕ) → (write w bytes).1 ≡ ok n → n ≤ length bytes

  -- What a send has come to when `out` is what the system took.
  pub record Delivery (bytes : List ℕ) (out : List ℕ) (status : SendStatus) : Type 0 where
    pub prefix : (n : ℕ) × (n ≤ length bytes) × (out ≡ take n bytes)
    pub whole : status ≡ sent → out ≡ bytes
    pub known : (status ≡ sent) ⊎ (status ≡ resource_not_found) ⊎ (status ≡ send_abort)

  taking-cases :
      (a : IoResult ℕ)
      → ((n : ℕ) × (a ≡ ok n) × (taking a ≡ took n)) ⊎ (taking a ≡ refused) ⊎ (taking a ≡ lost)
  unfolding taking
  taking-cases (ok n) = inl (n, refl, refl)
  taking-cases (err would_block) = inr (inl refl)
  taking-cases (err interrupted) = inr (inr refl)
  taking-cases (err connection_reset) = inr (inr refl)
  taking-cases (err not_connected) = inr (inr refl)
  taking-cases (err invalid_input) = inr (inr refl)
  taking-cases (err (other_kind _)) = inr (inr refl)

  in_range : (bytes : List ℕ) (total : ℕ) → total ≤ length bytes → ltb (length bytes) total ≡ false
  in_range bytes total le = ground arith

  loop :
      (tries : ℕ) (w : W) (bytes out : List ℕ) (total : ℕ)
      → IsBounded
      → total ≤ length bytes
      → out ≡ take total bytes
      → (w' : W) × (out' : List ℕ) × (status : SendStatus) × (send_loop write tries w bytes total
            out
          ≡ some (w', out', status))
        × Delivery bytes out' status
  unfolding send_loop
  loop zero w bytes out total h le eq = (
    w,
    out,
    send_abort,
    refl,
    record { prefix = (total, le, eq); whole = λ e. cc; known = inr (inr refl) },
  )
  loop (suc tries) w bytes out total h le eq =
      let w' = (write w (drop total bytes)).0 in
      rw (in_range bytes total le, send_loop)
        (elim (taking-cases (write w (drop total bytes)).1) [
          | inl (n, answer, taken) ↦
              let more : n ≤ length (drop total bytes) = h w (drop total bytes) n answer in
              let fits : total + n ≤ length bytes = omega (arith, more, length-drop total bytes) in
              let out_eq : out ++ take n (drop total bytes) ≡ take (total + n) bytes =
                rw (eq) (take_more total n bytes) in
              elim (Bool-cases (total + n == length bytes)) [
                | inl all ↦
                    rw (taken, all, send_loop)
                      (
                        w',
                        out ++ take n (drop total bytes),
                        sent,
                        refl,
                        record {
                          prefix = (total + n, fits, out_eq);
                          whole = λ _.
                              out_eq
                              ∙ take_whole (total + n) bytes
                                  ((==_iff (total + n) (length bytes)).0 all);
                          known = inl refl;
                        },
                      )
                | inr part ↦
                    rw (taken, part, send_loop)
                      (loop tries w' bytes (out ++ take n (drop total bytes)) (total + n) h fits
                        out_eq)
              ]
          | inr (inl again) ↦ rw (again, send_loop) (loop tries w' bytes out total h le eq)
          | inr (inr failed) ↦
              rw (failed, send_loop)
                (
                  w',
                  out,
                  resource_not_found,
                  refl,
                  record { prefix = (total, le, eq); whole = λ e. cc; known = inr (inl refl) },
                )
        ])

  -- Over a system that takes no more than it is offered, a send always returns: what the system
  -- took is a prefix of the bytes, all of them if the status is `sent`, and the status is `sent`,
  -- `resource_not_found` or `send_abort`.
  pub send-Delivery :
      (w : W) (bytes : List ℕ)
      → IsBounded
      → (w' : W) × (out : List ℕ) × (status : SendStatus) × (send write w bytes
          ≡ some (w', out, status))
        × Delivery bytes out status
  unfolding send
  send-Delivery w bytes h = loop max_send_tries w bytes [] 0 h (omega arith) refl

  -- The system takes a byte at least whenever it is offered one.
  abbrev pub IsEager : Type 0
  IsEager =
      (w : W) (bytes : List ℕ)
      → (n : ℕ) × ((write w bytes).1 ≡ ok n) × ((1 ≤ n) ⊎ (length bytes ≡ 0))

  eager_loop :
      (tries : ℕ) (w : W) (bytes out : List ℕ) (total : ℕ)
      → IsBounded
      → IsEager
      → total ≤ length bytes
      → 1 ≤ tries
      → length bytes ≤ total + tries
      → (w' : W) × (out' : List ℕ) × (send_loop write tries w bytes total out
          ≡ some (w', out', sent))
  unfolding send_loop taking
  eager_loop zero w bytes out total h eager le one enough = absurd (omega arith)
  eager_loop (suc tries) w bytes out total h eager le one enough =
      let w' = (write w (drop total bytes)).0 in
      let (n, answer, some_byte) = eager w (drop total bytes) in
      let more : n ≤ length (drop total bytes) = h w (drop total bytes) n answer in
      let left : length (drop total bytes) ≡ length bytes - total = length-drop total bytes in
      let fits : total + n ≤ length bytes = omega arith in
      rw (in_range bytes total le, answer, send_loop)
        (elim (Bool-cases (total + n == length bytes)) [
          | inl all ↦ rw (all, send_loop) (w', out ++ take n (drop total bytes), refl)
          | inr part ↦
              let short : total + n ≢ length bytes = λ e.
                not_true (total + n == length bytes) part
                  ((==_iff (total + n) (length bytes)).1 e) in
              let byte : 1 ≤ n = elim some_byte [
                | inl one_byte ↦ one_byte
                | inr no_byte ↦ absurd (short (omega arith))
              ] in
              rw (part, send_loop)
                (eager_loop tries w' bytes (out ++ take n (drop total bytes)) (total + n) h eager
                  fits (grind arith) (grind arith))
        ])

  -- If the system takes a byte at least whenever it is offered one, and no more than it is offered,
  -- then a send of up to a thousand bytes ends with `sent`.
  pub send-sent :
      (w : W) (bytes : List ℕ)
      → IsBounded
      → IsEager
      → length bytes ≤ max_send_tries
      → (w' : W) × (out : List ℕ) × (send write w bytes ≡ some (w', out, sent))
  unfolding send
  send-sent w bytes h eager short =
      eager_loop max_send_tries w bytes [] 0 h eager (omega arith) (omega arith) (omega arith)
