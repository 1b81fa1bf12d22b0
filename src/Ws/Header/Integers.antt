-- ===== src/Ws/Header/Integers.antt =====
-- Integers in network order.
use message_io.Prelude.{
  ℕ, zero, suc, ◌+◌, ◌*◌, ◌/◌, ◌%◌, ◌^◌, ◌<◌, ◌≡◌, refl, arith, List, [], ◌∷◌, ◌++◌, length,
  length-append,
}
use message_io.Ws.Header.{be_bytes, be_value}
use native.Mathlib.Nat.{pow-suc}

be_value-append :
    (acc b : ℕ) (xs : List ℕ) → be_value acc (xs ++ (b ∷ [])) ≡ be_value acc xs * 256 + b
unfolding be_value
be_value-append acc b [] = refl
be_value-append acc b (x ∷ xs) = be_value-append (acc * 256 + x) b xs

-- An integer that fits its `n` bytes is read back.
pub be_value-be_bytes : (n x : ℕ) → x < 256 ^ n → be_value 0 (be_bytes n x) ≡ x
unfolding be_bytes
be_value-be_bytes zero x h = unfold be_value in omega arith
be_value-be_bytes (suc n) x h = omega (
  arith,
  be_value-append 0 (x % 256) (be_bytes n (x / 256)),
  be_value-be_bytes n (x / 256) (omega (arith, pow-suc 256 n)),
)

pub length-be_bytes : (n x : ℕ) → length (be_bytes n x) ≡ n
unfolding be_bytes
length-be_bytes zero x = refl
length-be_bytes (suc n) x =
    omega (arith, length-append (be_bytes n (x / 256)) (x % 256 ∷ []), length-be_bytes n (x / 256))
