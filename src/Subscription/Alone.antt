-- ===== src/Subscription/Alone.antt =====
-- A subscription that nobody cancels.
use mathlib.Core.Bool.{false≢true}
use kubemq_cpp.Base.{
  ◌≡◌, refl, sym, ◌∙◌, false, Option, none, some, List, [], ◌∷◌, if_lem, if◌then◌else◌,
}
use kubemq_cpp.Subscription.{Phase, Shared, Action, started, step, run}

-- No `Cancel` is begun.
abbrev pub Uncancelled : {E : Type 0} → List (Action E) → Type 0
Uncancelled [] = Unit
Uncancelled (Action.set_done ∷ rest) = ⊥
Uncancelled (_ ∷ rest) = Uncancelled rest

-- The reader is in its loops.
abbrev pub Inside : Phase → Type 0
Inside Phase.leaving = ⊥
Inside Phase.exited = ⊥
Inside _ = Unit

-- The subscription is not done, and its reader is in its loops.
abbrev pub GoesOn : {D : Type 0} → Option (Phase × Shared D) → Type 0
GoesOn none = Unit
GoesOn (some (p, v)) = (v.done ≡ false) × Inside p

module _ {E D : Type 0} (deliver : E → Option D) where
  test-GoesOn :
      (x : Phase) (v : Shared D)
      → v.done ≡ false
      → Inside x
      → GoesOn (some (if v.done then Phase.leaving else x, v))
  test-GoesOn x v h i =
      if_lem (λ q. GoesOn (some (q, v))) v.done (λ bad. absurd (false≢true (sym h ∙ bad)))
        (λ _. (h, i))

  step-GoesOn :
      (a : Action E) (p : Phase) (v : Shared D)
      → Uncancelled (a ∷ [])
      → v.done ≡ false
      → Inside p
      → GoesOn (step deliver a p v)
  unfolding step
  step-GoesOn Action.test Phase.top v u h i = test-GoesOn Phase.reading v h tt
  step-GoesOn (Action.read e) Phase.reading v u h i = (h, tt)
  step-GoesOn Action.stream_ends Phase.reading v u h i = (h, tt)
  step-GoesOn Action.test Phase.ended v u h i = test-GoesOn (Phase.retry 1) v h tt
  step-GoesOn Action.test (Phase.retry b) v u h i = test-GoesOn (Phase.sleeping b) v h tt
  step-GoesOn Action.wake (Phase.sleeping b) v u h i = (h, tt)
  step-GoesOn Action.test (Phase.woken b) v u h i = test-GoesOn (Phase.opening b) v h tt
  step-GoesOn Action.opened (Phase.opening b) v u h i =
      if_lem GoesOn v.client_closed (λ _. tt) (λ _. (h, tt))
  step-GoesOn Action.refused (Phase.opening b) v u h i = (h, tt)
  step-GoesOn Action.leave Phase.leaving v u h i = elim i [ ]
  step-GoesOn Action.set_done p v u h i = elim u [ ]
  step-GoesOn Action.try_cancel p v u h i = if_lem GoesOn v.done (λ _. (h, i)) (λ _. tt)
  step-GoesOn Action.close_client p v u h i = (h, i)
  step-GoesOn _ _ v u h i = tt

  uncons :
      (a : Action E) (rest : List (Action E))
      → Uncancelled (a ∷ rest)
      → Uncancelled (a ∷ []) × Uncancelled rest
  uncons Action.set_done rest u = elim u [ ]
  uncons Action.test rest u = (tt, u)
  uncons (Action.read e) rest u = (tt, u)
  uncons Action.stream_ends rest u = (tt, u)
  uncons Action.wake rest u = (tt, u)
  uncons Action.opened rest u = (tt, u)
  uncons Action.refused rest u = (tt, u)
  uncons Action.leave rest u = (tt, u)
  uncons Action.try_cancel rest u = (tt, u)
  uncons Action.close_client rest u = (tt, u)

  run-GoesOn :
      (history : List (Action E)) (s : Option (Phase × Shared D))
      → Uncancelled history
      → GoesOn s
      → GoesOn (run deliver history s)
  unfolding run
  run-GoesOn [] s u g = g
  run-GoesOn (a ∷ rest) none u g = tt
  run-GoesOn (a ∷ rest) (some (p, v)) u (h, i) =
      let (first, others) = uncons a rest u in
      run-GoesOn rest (step deliver a p v) others (step-GoesOn a p v first h i)

  -- A subscription that nobody cancels is never done, and its reader never leaves its loops: not when the
  -- server ends the stream, not when a reconnection fails, and not when the client is closed.
  pub Uncancelled-GoesOn :
      (history : List (Action E))
      → Uncancelled history
      → GoesOn (run deliver history (some (Phase.top, started)))
  Uncancelled-GoesOn history u = run-GoesOn history (some (Phase.top, started)) u (refl, tt)
