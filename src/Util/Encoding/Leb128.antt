-- ===== src/Util/Encoding/Leb128.antt =====
-- A varint codec that keeps the laws: seven bits a byte, lowest first.
use message_io.Prelude.{
  ℕ, zero, suc, ◌+◌, ◌-◌, ◌*◌, ◌/◌, ◌%◌, ◌^◌, ◌≤◌, ◌<◌, ◌≡◌, refl, ap, arith, List, [], ◌∷◌, ◌++◌,
  length, length-append, cons_inj, Option, none, some, ltb, if◌then◌else◌, Bool-cases, inl, inr,
}
use message_io.Util.Encoding.{VarInt, VarIntLaws}

unfoldable pub write : ℕ → ℕ → List ℕ
write zero n = n ∷ []
write (suc k) n =
    let rest = write k (n / 128) in if ltb n 128 then n ∷ [] else (n % 128 + 128) ∷ rest

-- A further group behind the byte `b`.
abbrev pub add_group : ℕ → Option (ℕ × ℕ) → Option (ℕ × ℕ)
add_group b none = none
add_group b (some (n, u)) = some (b - 128 + 128 * n, suc u)

unfoldable pub read : List ℕ → Option (ℕ × ℕ)
read [] = none
read (b ∷ bs) = let rest = add_group b (read bs) in if ltb b 128 then some (b, 1) else rest

read-write :
    (k n : ℕ) (rest : List ℕ)
    → n < 128 ^ suc k
    → read (write k n ++ rest) ≡ some (n, length (write k n))
unfolding read write
read-write zero n rest h = ground arith
read-write (suc k) n rest h = ground (arith, read-write k (n / 128) rest (omega arith))

read_cut :
    (k n : ℕ) (front : List ℕ) (x : ℕ) (back : List ℕ)
    → n < 128 ^ suc k
    → write k n ≡ front ++ (x ∷ back)
    → read front ≡ none
unfolding read write
read_cut k n [] x back h e = refl
read_cut zero n (b ∷ []) x back h e = cc
read_cut zero n (b ∷ c ∷ front) x back h e = cc
read_cut (suc k) n (b ∷ front) x back h e = elim (Bool-cases (ltb n 128)) [
  | inl last ↦
      absurd (omega (arith, ap length (cons_inj (rw last at e)).1, length-append front (x ∷ back)))
  | inr more ↦
      let (be, we) = cons_inj (rw more at e) in
      ground (arith, be, read_cut k (n / 128) front x back (omega arith) we)
]

length-write : (k n : ℕ) → (1 ≤ length (write k n)) × (length (write k n) ≤ suc k)
unfolding write
length-write zero n = omega arith
length-write (suc k) n = ground (arith, length-write k (n / 128))

read_takes : (bytes : List ℕ) (n u : ℕ) → read bytes ≡ some (n, u) → (1 ≤ u) × (u ≤ length bytes)
unfolding read
read_takes [] n u e = cc
read_takes (b ∷ bs) n u e = elim (Bool-cases (ltb b 128)) [
  | inl last ↦ ground (arith, rw last at e)
  | inr more ↦ step (read bs) (read_takes bs) (rw more at e)
]
  where
    step :
        (o : Option (ℕ × ℕ))
        → ((n u : ℕ) → o ≡ some (n, u) → (1 ≤ u) × (u ≤ length bs))
        → add_group b o ≡ some (n, u)
        → (1 ≤ u) × (u ≤ suc (length bs))
    step none ih e = cc
    step (some (n', u')) ih e = ground (arith, ih n' u' refl)

abbrev pub leb128 : VarInt
leb128 = record { encode_var = write 9; decode_var = read }

write_short : (n : ℕ) → n < 128 → length (write 9 n) ≡ 1
unfolding write
write_short n h = ground arith

pub leb128-laws : VarIntLaws leb128
leb128-laws = record {
  decode-encode = λ n rest h. read-write 9 n rest (omega arith);
  decode_cut = λ n front x back h e. read_cut 9 n front x back (omega arith) e;
  encode_fits = λ n h. length-write 9 n;
  decode_takes = read_takes;
  encode_short = write_short;
}
