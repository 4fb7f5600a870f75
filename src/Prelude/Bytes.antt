-- ===== src/Prelude/Bytes.antt =====
-- Unsigned integers in memory, little endian, as `memcpy` moves them on the targets of this code.
use openvela_frameworks_syst.Prelude.{
  ℕ, ◌+◌, ◌*◌, ◌/◌, ◌%◌, ◌^◌, ◌<◌, ◌≡◌, ap, Option, none, some, List, [], ◌∷◌, ◌++◌, arith,
}

abbrev pub u32 : ℕ → ℕ
u32 n = n % 2 ^ 32

-- The number at a pointer, and the pointer behind it; `none` is a read past the end of the buffer.
unfoldable pub read32 : List ℕ → Option (ℕ × List ℕ)
read32 (a ∷ b ∷ c ∷ d ∷ rest) = some (a + 256 * (b + 256 * (c + 256 * d)), rest)
read32 _ = none

unfoldable pub read64 : List ℕ → Option (ℕ × List ℕ)
read64 (a ∷ b ∷ c ∷ d ∷ e ∷ f ∷ g ∷ h ∷ rest) =
    some (a + 256 * (b + 256 * (c + 256 * (d + 256 * (e + 256 * (f + 256 * (g + 256 * h)))))), rest)
read64 _ = none

unfoldable pub le32 : ℕ → List ℕ
le32 n = (n % 256) ∷ (n / 256 % 256) ∷ (n / 65536 % 256) ∷ (n / 16777216 % 256) ∷ []

unfoldable pub le64 : ℕ → List ℕ
unfolding le32
le64 n = le32 (n % 2 ^ 32) ++ le32 (n / 2 ^ 32)

pub read32-le32 : (n : ℕ) (rest : List ℕ) → n < 2 ^ 32 → read32 (le32 n ++ rest) ≡ some (n, rest)
unfolding read32 le32
read32-le32 n rest h = ap (λ k. some (k, rest)) (omega arith)

pub read64-le64 : (n : ℕ) (rest : List ℕ) → n < 2 ^ 64 → read64 (le64 n ++ rest) ≡ some (n, rest)
unfolding read64 le64
read64-le64 n rest h = ap (λ k. some (k, rest)) (omega arith)
