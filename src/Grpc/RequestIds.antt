-- ===== src/Grpc/RequestIds.antt =====
-- The identifiers of requests.
use beegfs_csi_driver.Prelude.{
  ℕ, zero, suc, ◌+◌, ◌/◌, ◌%◌, ◌<◌, ◌≡◌, ◌≢◌, refl, ap, ◌∙◌, List, [], ◌∷◌, arith, length,
}
use beegfs_csi_driver.Grpc.{hex_code, hex4, next_request, request_id}

-- The counter after so many requests.
abbrev pub counter_after : ℕ → ℕ → ℕ
counter_after zero counter = counter
counter_after (suc k) counter = next_request (counter_after k counter)

counter_after-mod : (k counter : ℕ) → counter_after k counter % 0x10000 ≡ (counter + k) % 0x10000
unfolding next_request
counter_after-mod zero counter = omega arith
counter_after-mod (suc k) counter = omega (arith, counter_after-mod k counter)

hex_code-injective : (a b : ℕ) → a < 16 → b < 16 → hex_code a ≡ hex_code b → a ≡ b
hex_code-injective a b p q e = ground arith

hex4-injective : (m n : ℕ) → m < 0x10000 → n < 0x10000 → hex4 m ≡ hex4 n → m ≡ n
hex4-injective m n p q e = omega (
  arith,
  hex_code-injective (m / 0x1000) (n / 0x1000) (omega arith) (omega arith) (ap (at 0) e),
  hex_code-injective (m / 0x100 % 0x10) (n / 0x100 % 0x10) (omega arith) (omega arith)
      (ap (at 1) e),
  hex_code-injective (m / 0x10 % 0x10) (n / 0x10 % 0x10) (omega arith) (omega arith) (ap (at 2) e),
  hex_code-injective (m % 0x10) (n % 0x10) (omega arith) (omega arith) (ap (at 3) e),
)
  where
    at : ℕ → List ℕ → ℕ
    at i [] = 0
    at zero (x ∷ xs) = x
    at (suc i) (x ∷ xs) = at i xs

-- An identifier has four digits. Those of two requests differ if fewer than 65536 requests lie between
-- them, also where the counter wraps; after 65536 requests an identifier is used again.
pub request_id-distinct :
    (counter i j : ℕ)
    → i < j
    → j < i + 0x10000
    → (length (request_id (counter_after i counter)) ≡ 4)
      × (request_id (counter_after i counter) ≢ request_id (counter_after j counter))
      × (request_id (counter_after (i + 0x10000) counter) ≡ request_id (counter_after i counter))
unfolding request_id
request_id-distinct counter i j lt near = (
  refl,
  λ e. absurd (
      omega (
        arith,
        hex4-injective (counter_after i counter % 0x10000) (counter_after j counter % 0x10000)
            (omega arith) (omega arith) e,
        counter_after-mod i counter,
        counter_after-mod j counter,
      )),
  ap hex4 (counter_after-mod (i + 0x10000) counter ∙ omega (arith, counter_after-mod i counter)),
)
