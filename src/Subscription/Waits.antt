-- ===== src/Subscription/Waits.antt =====
-- The waits before the reconnections of a subscription.
use kubemq_cpp.Base.{ℕ, zero, suc, leb, ◌≡◌, false, List, [], ◌∷◌, Option, if◌then◌else◌}
use kubemq_cpp.Subscription.{Shared, Action, next_backoff}

-- The wait after `k` more reconnections that failed.
unfoldable pub wait_from : ℕ → ℕ → ℕ
wait_from b zero = b
wait_from b (suc k) = wait_from (next_backoff b) k

-- `std::min` on numbers
abbrev pub min : ℕ → ℕ → ℕ
min a b = if leb a b then a else b

module _ {E D : Type 0} (deliver : E → Option D) (v : Shared D) (going : v.done ≡ false) where
  -- `k` rounds of a reconnection that fails.
  abbrev pub rounds : ℕ → List (Action E)
  rounds zero = []
  rounds (suc k) = Action.test ∷ Action.wake ∷ Action.test ∷ Action.refused ∷ rounds k
