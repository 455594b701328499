-- ===== src/Prelude/Words.antt =====
-- `int` and `std::atomic<int>`: a 32-bit signed number is held as its distance from INT_MIN, so that
-- wrap-around is that of the bit pattern and the order is that of ℕ.
use Prim.Native.Nat.{ℕ, ◌+◌, ◌-◌, ◌%◌, ◌^◌}

abbrev pub Int32 : Type 0
Int32 = ℕ

-- The non-negative number `n`.
abbrev pub int : ℕ → Int32
int n = 2 ^ 31 + n

-- The value after `fetch_add(1)` and after `fetch_sub(1)`.
abbrev pub increment : Int32 → Int32
increment c = (c + 1) % 2 ^ 32

abbrev pub decrement : Int32 → Int32
decrement c = (c + 2 ^ 32 - 1) % 2 ^ 32

-- `size_t` arithmetic.
abbrev pub add_size : ℕ → ℕ → ℕ
add_size a b = (a + b) % 2 ^ 64

abbrev pub sub_size : ℕ → ℕ → ℕ
sub_size a b = (a + 2 ^ 64 - b) % 2 ^ 64
