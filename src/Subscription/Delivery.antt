-- ===== src/Subscription/Delivery.antt =====
-- What the callback of a subscription is given.
use mathlib.Core.Path.{subst}
use kubemq_cpp.Base.{
  ◌≡◌, refl, sym, ap, ◌∙◌, Option, none, some, List, [], ◌∷◌, ◌++◌, append-nil, append_assoc,
  if_lem,
}
use kubemq_cpp.Subscription.{Phase, Shared, Action, delivered_with, started, step, run}

-- A message at the head of those that come later, if it is for the callback.
abbrev pub kept : {D : Type 0} → Option D → List D → List D
kept none ds = ds
kept (some d) ds = d ∷ ds

-- The messages that the streams gave, in their order, as the callback is to get them.
unfoldable pub collected : {E D : Type 0} → (E → Option D) → List (Action E) → List D
collected deliver [] = []
collected deliver (Action.read e ∷ rest) = kept (deliver e) (collected deliver rest)
collected deliver (_ ∷ rest) = collected deliver rest

-- The messages that the callback has been given in a state, if there is one.
abbrev pub Delivered : {D : Type 0} → List D → Option (Phase × Shared D) → Type 0
Delivered ds none = Unit
Delivered ds (some (p, v)) = v.delivered ≡ ds

module _ {E D : Type 0} (deliver : E → Option D) where
  -- What one action adds.
  unfoldable added : Action E → List D
  added (Action.read e) = delivered_with (deliver e) []
  added _ = []

  delivered_with_lem :
      (d : Option D) (ds : List D) → delivered_with d ds ≡ ds ++ delivered_with d []
  delivered_with_lem none ds = sym (append-nil ds)
  delivered_with_lem (some d) ds = refl

  step-Delivered :
      (a : Action E) (p : Phase) (v : Shared D)
      → Delivered (v.delivered ++ added a) (step deliver a p v)
  unfolding step added
  step-Delivered (Action.read e) Phase.reading v = delivered_with_lem (deliver e) v.delivered
  step-Delivered Action.test Phase.top v = sym (append-nil v.delivered)
  step-Delivered Action.stream_ends Phase.reading v = sym (append-nil v.delivered)
  step-Delivered Action.test Phase.ended v = sym (append-nil v.delivered)
  step-Delivered Action.test (Phase.retry b) v = sym (append-nil v.delivered)
  step-Delivered Action.wake (Phase.sleeping b) v = sym (append-nil v.delivered)
  step-Delivered Action.test (Phase.woken b) v = sym (append-nil v.delivered)
  step-Delivered Action.opened (Phase.opening b) v =
      if_lem (Delivered (v.delivered ++ [])) v.client_closed (λ _. tt)
        (λ _. sym (append-nil v.delivered))
  step-Delivered Action.refused (Phase.opening b) v = sym (append-nil v.delivered)
  step-Delivered Action.leave Phase.leaving v =
      if_lem (Delivered (v.delivered ++ [])) v.done (λ _. sym (append-nil v.delivered))
        (λ _. sym (append-nil v.delivered))
  step-Delivered Action.set_done p v = sym (append-nil v.delivered)
  step-Delivered Action.try_cancel p v =
      if_lem (Delivered (v.delivered ++ [])) v.done (λ _. sym (append-nil v.delivered)) (λ _. tt)
  step-Delivered Action.close_client p v = sym (append-nil v.delivered)
  step-Delivered _ _ v = tt

  kept_lem : (d : Option D) (ds : List D) → kept d ds ≡ delivered_with d [] ++ ds
  kept_lem none ds = refl
  kept_lem (some d) ds = refl

  collected_step :
      (a : Action E) (rest : List (Action E))
      → collected deliver (a ∷ rest) ≡ added a ++ collected deliver rest
  unfolding collected added
  collected_step (Action.read e) rest = kept_lem (deliver e) (collected deliver rest)
  collected_step Action.test rest = refl
  collected_step Action.stream_ends rest = refl
  collected_step Action.wake rest = refl
  collected_step Action.opened rest = refl
  collected_step Action.refused rest = refl
  collected_step Action.leave rest = refl
  collected_step Action.set_done rest = refl
  collected_step Action.try_cancel rest = refl
  collected_step Action.close_client rest = refl

  run-Delivered :
      (history : List (Action E)) (ds : List D) (s : Option (Phase × Shared D))
      → Delivered ds s
      → Delivered (ds ++ collected deliver history) (run deliver history s)
  unfolding run
  run-Delivered [] ds none h = tt
  run-Delivered [] ds (some (p, v)) h = unfold collected in (h ∙ sym (append-nil ds))
  run-Delivered (a ∷ rest) ds none h = tt
  run-Delivered (a ∷ rest) ds (some (p, v)) h =
      subst (λ x. Delivered x (run deliver rest (step deliver a p v)))
        (append_assoc ds (added a) (collected deliver rest)
          ∙ ap (λ x. ds ++ x) (sym (collected_step a rest)))
        (run-Delivered rest (ds ++ added a) (step deliver a p v)
          (subst (λ x. Delivered (x ++ added a) (step deliver a p v)) h (step-Delivered a p v)))

  -- Whatever the history of a subscription, and however often its stream was opened again, the callback
  -- has been given exactly the messages that the streams gave and that are for it, each once and in
  -- their order.
  pub history-Delivered :
      (history : List (Action E))
      → Delivered (collected deliver history) (run deliver history (some (Phase.top, started)))
  history-Delivered history = run-Delivered history [] (some (Phase.top, started)) refl
