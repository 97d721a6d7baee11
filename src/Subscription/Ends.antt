-- ===== src/Subscription/Ends.antt =====
-- What the reader still does after a `Cancel`.
use mathlib.Core.Bool.{false≢true}
use mathlib.Core.Path.{subst}
use kubemq_cpp.Base.{
  ℕ, suc, ◌+◌, ◌-◌, ◌≤◌, ◌≡◌, sym, ◌∙◌, inl, inr, true, Option, none, some, List, [], ◌∷◌, arith,
  if_lem, if◌then◌else◌,
}
use kubemq_cpp.Subscription.{Phase, Shared, Action, started, step, run}
use kubemq_cpp.Subscription.Life.{IsSound, AllSound, history-IsSound}

-- The actions of the reader's thread.
abbrev pub IsReader : {E : Type 0} → Action E → Type 0
IsReader Action.set_done = ⊥
IsReader Action.try_cancel = ⊥
IsReader Action.close_client = ⊥
IsReader _ = Unit

abbrev pub AllReader : {E : Type 0} → List (Action E) → Type 0
AllReader [] = Unit
AllReader (a ∷ rest) = IsReader a × AllReader rest

-- How many more actions the reader has, once it is cancelled.
abbrev pub left : Phase → ℕ
left Phase.top = 2
left Phase.reading = 3
left Phase.ended = 2
left (Phase.retry b) = 2
left (Phase.sleeping b) = 3
left (Phase.woken b) = 2
left (Phase.opening b) = 3
left Phase.leaving = 1
left Phase.exited = 0

-- The actions that are no reads.
abbrev pub others : {E : Type 0} → List (Action E) → ℕ
others [] = 0
others (Action.read e ∷ rest) = others rest
others (a ∷ rest) = suc (others rest)

-- What an action costs of them.
abbrev cost : {E : Type 0} → Action E → ℕ
cost (Action.read e) = 0
cost a = 1

others_cons :
    {E : Type 0} (a : Action E) (rest : List (Action E)) → others (a ∷ rest) ≡ cost a + others rest
others_cons (Action.read e) rest = omega arith
others_cons Action.test rest = omega arith
others_cons Action.stream_ends rest = omega arith
others_cons Action.wake rest = omega arith
others_cons Action.opened rest = omega arith
others_cons Action.refused rest = omega arith
others_cons Action.leave rest = omega arith
others_cons Action.set_done rest = omega arith
others_cons Action.try_cancel rest = omega arith
others_cons Action.close_client rest = omega arith

-- A state in which the reader has been cancelled.
abbrev IsCancelled : {D : Type 0} → Shared D → Type 0
IsCancelled v = (v.done ≡ true) × (v.asked ≡ true)

-- The cost of an action at `p` is taken from what is left.
abbrev Less : {D : Type 0} → ℕ → Phase → Option (Phase × Shared D) → Type 0
Less n p none = Unit
Less n p (some (q, w)) = (n + left q ≤ left p) × IsCancelled w

-- No more than `n` actions are left.
abbrev Within : {D : Type 0} → ℕ → Option (Phase × Shared D) → Type 0
Within n none = Unit
Within n (some (p, v)) = (left p ≤ n) × IsCancelled v

module _ {E D : Type 0} (deliver : E → Option D) where
  test-Less :
      (p x : Phase) (v : Shared D)
      → IsCancelled v
      → 2 ≤ left p
      → Less 1 p (some (if v.done then Phase.leaving else x, v))
  test-Less p x v c h =
      if_lem (λ q. Less 1 p (some (q, v))) v.done (λ _. (h, c))
        (λ bad. absurd (false≢true (sym bad ∙ c.0)))

  step-Less :
      (a : Action E) (p : Phase) (v : Shared D)
      → IsReader a
      → IsCancelled v
      → Less (cost a) p (step deliver a p v)
  unfolding step
  step-Less Action.test Phase.top v r c = test-Less Phase.top Phase.reading v c (omega arith)
  step-Less (Action.read e) Phase.reading v r c = (omega arith, c)
  step-Less Action.stream_ends Phase.reading v r c = (omega arith, c)
  step-Less Action.test Phase.ended v r c = test-Less Phase.ended (Phase.retry 1) v c (omega arith)
  step-Less Action.test (Phase.retry b) v r c =
      test-Less (Phase.retry b) (Phase.sleeping b) v c (omega arith)
  step-Less Action.wake (Phase.sleeping b) v r c = (omega arith, c)
  step-Less Action.test (Phase.woken b) v r c =
      test-Less (Phase.woken b) (Phase.opening b) v c (omega arith)
  step-Less Action.opened (Phase.opening b) v r c =
      if_lem (Less 1 (Phase.opening b)) v.client_closed (λ _. tt) (λ _. (omega arith, c))
  step-Less Action.refused (Phase.opening b) v r c = (omega arith, c)
  step-Less Action.leave Phase.leaving v r c =
      if_lem (Less 1 Phase.leaving) v.done (λ _. (omega arith, c))
        (λ bad. absurd (false≢true (sym bad ∙ c.0)))
  step-Less Action.set_done p v r c = elim r [ ]
  step-Less Action.try_cancel p v r c = elim r [ ]
  step-Less Action.close_client p v r c = elim r [ ]
  step-Less _ _ v r c = tt

  -- What comes after an action, and that its cost was left before.
  after :
      (k n : ℕ) (p : Phase) (s : Option (Phase × Shared D))
      → Less k p s
      → left p ≤ n
      → Within (n - k) s
  after k n p none l h = tt
  after k n p (some (q, w)) (l, c) h = (omega (arith, l, h), c)

  affordable :
      (k n : ℕ) (p : Phase) (rest : List (Action E)) (s : Option (Phase × Shared D))
      (t : Phase × Shared D)
      → Less k p s
      → left p ≤ n
      → run deliver rest s ≡ some t
      → k ≤ n
  unfolding run
  affordable k n p [] none t l h e = cc
  affordable k n p (a ∷ rest) none t l h e = cc
  affordable k n p rest (some (q, w)) t (l, c) h e = omega (arith, l, h)

  bound :
      (rest : List (Action E)) (n : ℕ) (s : Option (Phase × Shared D)) (t : Phase × Shared D)
      → Within n s
      → AllReader rest
      → run deliver rest s ≡ some t
      → others rest ≤ n
  unfolding run
  bound [] n s t w r e = omega arith
  bound (a ∷ rest) n none t w r e = cc
  bound (a ∷ rest) n (some (p, v)) t (l, c) (r, rs) e =
      let less = step-Less a p v r c in
      let h = bound rest (n - cost a) (step deliver a p v) t (after (cost a) n p _ less l) rs e in
      let k = affordable (cost a) n p rest _ t less l e in
      let o = others_cons a rest in omega (arith, h, k, o)

  left_le : (p : Phase) → left p ≤ 3
  left_le Phase.top = omega arith
  left_le Phase.reading = omega arith
  left_le Phase.ended = omega arith
  left_le (Phase.retry b) = omega arith
  left_le (Phase.sleeping b) = omega arith
  left_le (Phase.woken b) = omega arith
  left_le (Phase.opening b) = omega arith
  left_le Phase.leaving = omega arith
  left_le Phase.exited = omega arith

  module _ (history : List (Action E)) (p : Phase) (v : Shared D)
      (reached : run deliver history (some (Phase.top, started)) ≡ some (p, v))
      (asked : v.asked ≡ true) where
    reached-IsSound : IsSound p v
    reached-IsSound = subst AllSound reached (history-IsSound deliver history)

    reached-IsCancelled : IsCancelled v
    reached-IsCancelled = (
      elim reached-IsSound.asked_done [ inl n ↦ absurd (false≢true (sym n ∙ asked)) | inr d ↦ d ],
      asked,
    )

    -- Once a `Cancel` has run to its end, the reader's thread does at most three more actions beside
    -- reads, whatever the server and the network do.
    pub cancelled_reader_bound :
        (rest : List (Action E)) (t : Phase × Shared D)
        → AllReader rest
        → run deliver rest (some (p, v)) ≡ some t
        → others rest ≤ 3
    cancelled_reader_bound rest t r e =
        bound rest 3 (some (p, v)) t (left_le p, reached-IsCancelled) r e
