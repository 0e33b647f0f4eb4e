-- ===== src/Auth/Compare.antt =====
-- `constantTimeEqual` compares the bytes.
use Prim.Native.Nat.{digits, max, differ, bit_xor, bit_or-bitwise, bit_xor-bitwise}
use night_mare_network.Base.{
  ℕ, zero, suc, ◌/◌, ◌%◌, ◌≤◌, ◌≡◌, refl, ◌&&◌, ◌==◌, Bytes, bytes_eq, [], ◌∷◌, length, arith,
  bit_or, get_or,
}
use night_mare_network.Auth.{difference, constant_time_equal}

or_zero : (n a b : ℕ) → a ≤ n → (digits (λ c. c) max n a b == 0) ≡ (a == 0) && (b == 0)
or_zero zero a b h = ground arith
or_zero (suc n) zero b h = ground arith
or_zero (suc n) (suc a) b h = ground (arith, or_zero n (suc a / 2) (b / 2) (omega arith))

differ_zero : (x y : ℕ) → (differ x y == 0) ≡ (x == y)
differ_zero zero y = ground arith
differ_zero (suc x) zero = ground arith
differ_zero (suc x) (suc y) = ground (arith, differ_zero x y)

xor_zero : (n a b : ℕ) → a ≤ n → (digits (λ c. c) differ n a b == 0) ≡ (a == b)
xor_zero zero a b h = ground arith
xor_zero (suc n) zero b h = ground arith
xor_zero (suc n) (suc a) b h =
    ground (arith, xor_zero n (suc a / 2) (b / 2) (omega arith), differ_zero (suc a % 2) (b % 2))

bit_or-zero : (a b : ℕ) → (bit_or a b == 0) ≡ (a == 0) && (b == 0)
bit_or-zero a b = rw (bit_or-bitwise a b) (or_zero a a b (omega arith))

bit_xor-zero : (a b : ℕ) → (bit_xor a b == 0) ≡ (a == b)
bit_xor-zero a b = rw (bit_xor-bitwise a b) (xor_zero a a b (omega arith))

difference-tail :
    (x y : ℕ) (a b : Bytes) (left i so_far : ℕ)
    → difference (x ∷ a) (y ∷ b) left (suc i) so_far ≡ difference a b left i so_far
unfolding difference
difference-tail x y a b zero i so_far = refl
difference-tail x y a b (suc left) i so_far =
    difference-tail x y a b left (suc i) (bit_or so_far (bit_xor (get_or a i 0) (get_or b i 0)))

difference-zero :
    (a b : Bytes) (so_far : ℕ)
    → length b ≡ length a
    → (difference a b (length a) 0 so_far == 0) ≡ (so_far == 0) && bytes_eq a b
unfolding difference bytes_eq
difference-zero [] [] so_far e = ground arith
difference-zero [] (y ∷ b) so_far e = absurd (omega (arith, e))
difference-zero (x ∷ a) [] so_far e = absurd (omega (arith, e))
difference-zero (x ∷ a) (y ∷ b) so_far e =
    let next = bit_or so_far (bit_xor x y) in
    ground (
      arith,
      difference-tail x y a b (length a) 0 next,
      difference-zero a b next (omega (arith, e)),
      bit_or-zero so_far (bit_xor x y),
      bit_xor-zero x y,
    )

-- Of two buffers of one length, `constantTimeEqual` answers whether they hold the same bytes.
pub constant_time_equal-bytes_eq :
    (a b : Bytes) → length b ≡ length a → constant_time_equal a b (length a) ≡ bytes_eq a b
unfolding constant_time_equal
constant_time_equal-bytes_eq a b e = ground (arith, difference-zero a b 0 e)
