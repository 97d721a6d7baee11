-- ===== src/Subscription/Life.antt =====
-- When the reader of a subscription ends, and how long it waits.
use mathlib.Core.Bool.{false≢true}
use kubemq_cpp.Base.{
  ℕ, ◌*◌, ◌≤◌, leb, leb→le, ◌≡◌, refl, sym, ◌∙◌, ◌⊎◌, inl, inr, true, false, Option, none, some,
  List, [], ◌∷◌, arith, if_lem, if◌then◌else◌,
}
use kubemq_cpp.Subscription.{Phase, Shared, Action, next_backoff, started, step, run}

-- What holds at a phase: the reader leaves only when `done` is set; a stream that is read after a
-- `Cancel` is cancelled; and a wait is between one second and thirty.
abbrev pub At : {D : Type 0} → Phase → Shared D → Type 0
At Phase.reading v = (v.asked ≡ false) ⊎ (v.cancelled ≡ true)
At (Phase.retry b) v = (1 ≤ b) × (b ≤ 30)
At (Phase.sleeping b) v = (1 ≤ b) × (b ≤ 30)
At (Phase.woken b) v = (1 ≤ b) × (b ≤ 30)
At (Phase.opening b) v = (1 ≤ b) × (b ≤ 30)
At Phase.leaving v = v.done ≡ true
At Phase.exited v = v.done ≡ true
At _ v = Unit

-- The invariant.
pub record IsSound {D : Type 0} (p : Phase) (v : Shared D) : Type 0 where
  pub asked_done : (v.asked ≡ false) ⊎ (v.done ≡ true)
  pub at_phase : At p v
  pub silent : v.reported ≡ false

-- A state, if there is one, has the invariant.
abbrev pub AllSound : {D : Type 0} → Option (Phase × Shared D) → Type 0
AllSound none = Unit
AllSound (some (p, v)) = IsSound p v

next_backoff_bounds : (b : ℕ) → (1 ≤ b) × (b ≤ 30) → (1 ≤ next_backoff b) × (next_backoff b ≤ 30)
unfolding next_backoff
next_backoff_bounds b (low, high) =
    if_lem (λ n. (1 ≤ n) × (n ≤ 30)) (leb (2 * b) 30)
      (λ h. (omega (arith, low), leb→le (2 * b) 30 h)) (λ _. (omega arith, omega arith))

module _ {D : Type 0} (v : Shared D) where
  set_done-At : (p : Phase) → At p v → At p (record v { done = true })
  set_done-At Phase.leaving h = refl
  set_done-At Phase.exited h = refl
  set_done-At Phase.top h = tt
  set_done-At Phase.reading h = h
  set_done-At Phase.ended h = tt
  set_done-At (Phase.retry b) h = h
  set_done-At (Phase.sleeping b) h = h
  set_done-At (Phase.woken b) h = h
  set_done-At (Phase.opening b) h = h

  try_cancel-At : (p : Phase) → At p v → At p (record v { cancelled = true; asked = true })
  try_cancel-At Phase.reading h = inr refl
  try_cancel-At Phase.leaving h = h
  try_cancel-At Phase.exited h = h
  try_cancel-At Phase.top h = tt
  try_cancel-At Phase.ended h = tt
  try_cancel-At (Phase.retry b) h = h
  try_cancel-At (Phase.sleeping b) h = h
  try_cancel-At (Phase.woken b) h = h
  try_cancel-At (Phase.opening b) h = h

  close_client-At : (p : Phase) → At p v → At p (record v { client_closed = true })
  close_client-At Phase.reading h = h
  close_client-At Phase.leaving h = h
  close_client-At Phase.exited h = h
  close_client-At Phase.top h = tt
  close_client-At Phase.ended h = tt
  close_client-At (Phase.retry b) h = h
  close_client-At (Phase.sleeping b) h = h
  close_client-At (Phase.woken b) h = h
  close_client-At (Phase.opening b) h = h

  -- The test of `done` goes to the exit, or on to a phase whose condition holds.
  test-AllSound :
      (q p : Phase)
      → IsSound q v
      → (v.done ≡ false → At p v)
      → IsSound (if v.done then Phase.leaving else p) v
  test-AllSound q p s on =
      if_lem (λ r. IsSound r v) v.done
        (λ h. record { asked_done = s.asked_done; at_phase = h; silent = s.silent })
        (λ h. record { asked_done = s.asked_done; at_phase = on h; silent = s.silent })

  -- Without `done` there was no `Cancel`.
  not_asked : {p : Phase} → IsSound p v → v.done ≡ false → v.asked ≡ false
  not_asked s h = elim s.asked_done [ inl n ↦ n | inr d ↦ absurd (false≢true (sym h ∙ d)) ]

module _ {E D : Type 0} (deliver : E → Option D) where
  -- Every action keeps the invariant.
  pub step-IsSound :
      (a : Action E) (p : Phase) (v : Shared D) → IsSound p v → AllSound (step deliver a p v)
  unfolding step
  step-IsSound Action.test Phase.top v s =
      test-AllSound v Phase.top Phase.reading s (λ h. inl (not_asked v s h))
  step-IsSound (Action.read e) Phase.reading v s = record {
    asked_done = s.asked_done;
    at_phase = s.at_phase;
    silent = s.silent;
  }
  step-IsSound Action.stream_ends Phase.reading v s = record {
    asked_done = s.asked_done;
    at_phase = tt;
    silent = s.silent;
  }
  step-IsSound Action.test Phase.ended v s =
      test-AllSound v Phase.ended (Phase.retry 1) s (λ _. (omega arith, omega arith))
  step-IsSound Action.test (Phase.retry b) v s =
      test-AllSound v (Phase.retry b) (Phase.sleeping b) s (λ _. s.at_phase)
  step-IsSound Action.wake (Phase.sleeping b) v s = record {
    asked_done = s.asked_done;
    at_phase = s.at_phase;
    silent = s.silent;
  }
  step-IsSound Action.test (Phase.woken b) v s =
      test-AllSound v (Phase.woken b) (Phase.opening b) s (λ _. s.at_phase)
  step-IsSound Action.opened (Phase.opening b) v s =
      if_lem AllSound v.client_closed (λ _. tt)
        (λ _. record { asked_done = s.asked_done; at_phase = tt; silent = s.silent })
  step-IsSound Action.refused (Phase.opening b) v s = record {
    asked_done = s.asked_done;
    at_phase = next_backoff_bounds b s.at_phase;
    silent = s.silent;
  }
  step-IsSound Action.leave Phase.leaving v s =
      if_lem AllSound v.done
        (λ h. record { asked_done = s.asked_done; at_phase = h; silent = s.silent })
        (λ h. absurd (false≢true (sym h ∙ s.at_phase)))
  step-IsSound Action.set_done p v s = record {
    asked_done = inr refl;
    at_phase = set_done-At v p s.at_phase;
    silent = s.silent;
  }
  step-IsSound Action.try_cancel p v s =
      if_lem AllSound v.done
        (λ h. record {
          asked_done = inr h;
          at_phase = try_cancel-At v p s.at_phase;
          silent = s.silent;
        })
        (λ _. tt)
  step-IsSound Action.close_client p v s = record {
    asked_done = s.asked_done;
    at_phase = close_client-At v p s.at_phase;
    silent = s.silent;
  }
  step-IsSound _ _ v s = tt

  run-IsSound :
      (history : List (Action E)) (s : Option (Phase × Shared D))
      → AllSound s
      → AllSound (run deliver history s)
  unfolding run
  run-IsSound [] s h = h
  run-IsSound (a ∷ rest) none h = tt
  run-IsSound (a ∷ rest) (some (p, v)) h =
      run-IsSound rest (step deliver a p v) (step-IsSound a p v h)

  pub history-IsSound :
      (history : List (Action E)) → AllSound (run deliver history (some (Phase.top, started)))
  history-IsSound history =
      run-IsSound history (some (Phase.top, started))
        record { asked_done = inl refl; at_phase = tt; silent = refl }
