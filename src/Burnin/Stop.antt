-- ===== src/Burnin/Stop.antt =====
-- The end of a run that was asked to stop.
use kubemq_cpp.Base.{
  ℕ, zero, suc, ◌≤◌, ◌<◌, ◌≡◌, ◌≢◌, refl, sym, ap, ◌∙◌, ◌||◌, true, false, Option, none, some, List,
  [], ◌∷◌, map, length, if_lem, if◌then◌else◌, arith,
}
use mathlib.Core.Bool.{false≢true}
use kubemq_cpp.Burnin.{create_workers}
use kubemq_cpp.Burnin.Engine.{
  RunState, Thread, Starter, Engine, LoopAction, Action, Control, is_live, loop_step, with_thread,
  step, run,
}

-- How many actions the thread has left once a stop is requested.
abbrev left : Thread → ℕ
left Thread.no_thread = 0
left Thread.creating = 7
left Thread.announcing = 6
left Thread.launching = 5
left Thread.polling = 4
left Thread.winding_down = 3
left Thread.reporting = 2
left Thread.finishing = 1
left Thread.ended = 0

abbrev Less : ℕ → Option Control → Type 0
Less n none = Unit
Less n (some (s, t, e)) = (left t < n) × (e.stop_requested ≡ true)

abbrev Within : ℕ → Option Control → Type 0
Within n none = Unit
Within n (some (s, t, e)) = (left t ≤ n) × (e.stop_requested ≡ true)

live_left : (t : Thread) → is_live t ≡ true → 0 < left t
unfolding is_live
live_left Thread.no_thread h = absurd (false≢true h)
live_left Thread.creating h = omega arith
live_left Thread.announcing h = omega arith
live_left Thread.launching h = omega arith
live_left Thread.polling h = omega arith
live_left Thread.winding_down h = omega arith
live_left Thread.reporting h = omega arith
live_left Thread.finishing h = omega arith
live_left Thread.ended h = absurd (false≢true h)

loop_step-Less :
    (a : LoopAction) (s : Starter) (t : Thread) (e : Engine)
    → e.stop_requested ≡ true
    → Less (left t) (step (Action.by_loop a) (s, t, e))
unfolding step loop_step with_thread
loop_step-Less (LoopAction.fails what) s t e h =
    if_lem (λ o. Less (left t) (with_thread s o)) (is_live t) (λ live. (live_left t live, h))
      (λ _. tt)
loop_step-Less LoopAction.creates s Thread.creating e h = (omega arith, h)
loop_step-Less LoopAction.announces s Thread.announcing e h = (omega arith, h)
loop_step-Less LoopAction.launches s Thread.launching e h = (omega arith, h)
loop_step-Less (LoopAction.polls elapsed) s Thread.polling e h =
    if_lem (λ (u : Thread). (left u < 4) × (e.stop_requested ≡ true)) (e.stop_requested || elapsed)
      (λ _. (omega arith, h)) (λ no. absurd (false≢true (sym no ∙ ap (λ b. b || elapsed) h)))
loop_step-Less LoopAction.winds_down s Thread.winding_down e h = (omega arith, h)
loop_step-Less LoopAction.reports s Thread.reporting e h = (omega arith, h)
loop_step-Less LoopAction.finishes s Thread.finishing e h = (omega arith, h)
loop_step-Less _ s _ e h = tt

weaken : (n : ℕ) (m : ℕ) (c : Option Control) → Less m c → m ≤ suc n → Within n c
weaken n m none l k = tt
weaken n m (some (s, t, e)) (l, h) k = (omega (arith, l, k), h)

stuck :
    (rest : List LoopAction) (c : Option Control) (n : ℕ) (d : Control)
    → Less n c
    → n ≤ 0
    → run (map Action.by_loop rest) c ≡ some d
    → suc (length rest) ≤ 0
unfolding run
stuck [] none n d l k r = cc
stuck (a ∷ rest) none n d l k r = cc
stuck rest (some (s, t, e)) n d (l, h) k r = absurd (omega (arith, l, k))

bound :
    (rest : List LoopAction) (n : ℕ) (c : Option Control) (d : Control)
    → Within n c
    → run (map Action.by_loop rest) c ≡ some d
    → length rest ≤ n
unfolding run
bound [] n c d w r = omega arith
bound (a ∷ rest) n none d w r = cc
bound (a ∷ rest) zero (some (s, t, e)) d (l, h) r =
    stuck rest (step (Action.by_loop a) (s, t, e)) (left t) d (loop_step-Less a s t e h) l r
bound (a ∷ rest) (suc n) (some (s, t, e)) d (l, h) r =
    let k =
      bound rest n (step (Action.by_loop a) (s, t, e)) d
        (weaken n (left t) _ (loop_step-Less a s t e h) l) r in
    omega (arith, k)

left_le : (t : Thread) → left t ≤ 7
left_le Thread.no_thread = omega arith
left_le Thread.creating = omega arith
left_le Thread.announcing = omega arith
left_le Thread.launching = omega arith
left_le Thread.polling = omega arith
left_le Thread.winding_down = omega arith
left_le Thread.reporting = omega arith
left_le Thread.finishing = omega arith
left_le Thread.ended = omega arith

-- How a run that is stopped ends
abbrev pub HasStopped : Starter → Control → Type 0
HasStopped s (s', t, e) =
    (s' ≡ s) × ((t ≡ Thread.ended) × ((e.state ≡ RunState.stopped) × (e.has_report ≡ true)))

-- There are actions of the thread that end the run.
abbrev pub CanStop : Starter → Thread → Engine → Type 0
CanStop s t e =
    (rest : List LoopAction) × ((c : Control) × ((run (map Action.by_loop rest) (some (s, t, e))
          ≡ some c)
        × HasStopped s c))

module _ (s : Starter) where
  from_finishing : (e : Engine) → e.has_report ≡ true → CanStop s Thread.finishing e
  unfolding run step loop_step with_thread
  from_finishing e h = (LoopAction.finishes ∷ [], (_, (refl, (refl, (refl, (refl, h))))))

  from_reporting : (e : Engine) → CanStop s Thread.reporting e
  unfolding run step loop_step with_thread
  from_reporting e =
      let (rest, (c, (r, z))) = from_finishing (record e { has_report = true }) refl in
      (LoopAction.reports ∷ rest, (c, (r, z)))

  from_winding_down : (e : Engine) → CanStop s Thread.winding_down e
  unfolding run step loop_step with_thread
  from_winding_down e =
      let (rest, (c, (r, z))) = from_reporting (record e { workers = [] }) in
      (LoopAction.winds_down ∷ rest, (c, (r, z)))

  from_polling : (e : Engine) → e.stop_requested ≡ true → CanStop s Thread.polling e
  unfolding run step loop_step with_thread
  from_polling e h =
      let (rest, (c, (r, z))) = from_winding_down e in
      (
        LoopAction.polls false ∷ rest,
        (
          c,
          (
            ap
                  (λ b.
                    run (map Action.by_loop rest)
                      (some (s, if b || false then Thread.winding_down else Thread.polling, e)))
                  h
                ∙ r,
            z,
          ),
        ),
      )

  from_launching : (e : Engine) → e.stop_requested ≡ true → CanStop s Thread.launching e
  unfolding run step loop_step with_thread
  from_launching e h =
      let (rest, (c, (r, z))) = from_polling e h in (LoopAction.launches ∷ rest, (c, (r, z)))

  from_announcing : (e : Engine) → e.stop_requested ≡ true → CanStop s Thread.announcing e
  unfolding run step loop_step with_thread
  from_announcing e h =
      let (rest, (c, (r, z))) = from_launching (record e { state = RunState.running }) h in
      (LoopAction.announces ∷ rest, (c, (r, z)))

  from_creating : (e : Engine) → e.stop_requested ≡ true → CanStop s Thread.creating e
  unfolding run step loop_step with_thread
  from_creating e h =
      let (rest, (c, (r, z))) =
        from_announcing (record e { workers = create_workers e.run_id e.config }) h in
      (LoopAction.creates ∷ rest, (c, (r, z)))

-- Before its last action, where the report is made already
abbrev pub BeforeReport : Thread → Type 0
BeforeReport t = (is_live t ≡ true) × (t ≢ Thread.finishing)

can_end :
    (s : Starter) (t : Thread) (e : Engine)
    → BeforeReport t
    → e.stop_requested ≡ true
    → CanStop s t e
unfolding is_live
can_end s Thread.no_thread e (l, n) h = absurd (false≢true l)
can_end s Thread.creating e (l, n) h = from_creating s e h
can_end s Thread.announcing e (l, n) h = from_announcing s e h
can_end s Thread.launching e (l, n) h = from_launching s e h
can_end s Thread.polling e (l, n) h = from_polling s e h
can_end s Thread.winding_down e (l, n) h = from_winding_down s e
can_end s Thread.reporting e (l, n) h = from_reporting s e
can_end s Thread.finishing e (l, n) h = absurd (n refl)
can_end s Thread.ended e (l, n) h = absurd (false≢true l)

-- A thread that is asked to stop, wherever it is before the end of its report, can come to its end by its
-- own actions, with the state stopped and a report, whether the duration has passed or not; and whatever
-- actions it does from there, they are at most seven.
pub stopped_run_ends :
    (s : Starter) (t : Thread) (e : Engine)
    → BeforeReport t
    → e.stop_requested ≡ true
    → (done : List LoopAction) (c : Control)
    → run (map Action.by_loop done) (some (s, t, e)) ≡ some c
    → CanStop s t e × (length done ≤ 7)
unfolding is_live
stopped_run_ends s t e before h done c r =
    (can_end s t e before h, bound done 7 _ c (left_le t, h) r)
