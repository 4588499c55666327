-- ===== src/Prelude/Order.antt =====
-- `<` on the native numbers is well founded.
use Prim.Native.Nat.{ℕ, zero, suc, ◌<◌}
use mathlib.Core.WellFounded.{Acc, WellFounded}
use native.Mathlib.Omega.{arith}

acc_of_lt : (k n : ℕ) → n < k → Acc ◌<◌ n
acc_of_lt zero n h = elim h [ ]
acc_of_lt (suc k) n h = Acc.intro n (λ m p. acc_of_lt k m (omega arith))

unfoldable pub lt_wf : WellFounded ◌<◌
unfolding acc_of_lt
lt_wf = record { apply = λ n. acc_of_lt (suc n) n (omega arith) }
