-- ===== src/Base/Loops.antt =====
-- Loops that count up from 0.
use bc250_vulkan_encode_stop.Base.{ℕ, zero, suc, List, [], ◌∷◌, ◌++◌}
use bc250_vulkan_encode_stop.Base.Int.{ℤ, pos, ◌+ℤ◌}

-- The numbers below a bound, in order.
unfoldable pub upto : ℕ → List ℕ
upto zero = []
upto (suc n) = upto n ++ n ∷ []

-- `sum += term(k)` for `k` below the bound, from 0.
unfoldable pub sum_to : ℕ → (ℕ → ℤ) → ℤ
sum_to zero term = pos 0
sum_to (suc n) term = sum_to n term +ℤ term n
