-- ===== src/Transport/MessageBuffer/Drain.antt =====
-- `Drain` hands the queued messages to the sender in order, and stops after the first refusal.
use kubemq_cpp.Base.{
  ℕ, zero, suc, ◌+◌, ◌-◌, ◌≡◌, refl, ap, ◌∙◌, inl, inr, Bool, List, [], Bytes, arith, get_or,
  Bool-cases, lt→ltb,
}
use kubemq_cpp.Transport.MessageBuffer.{MessageBuffer, drop_head, drain_loop, drain}
use kubemq_cpp.Transport.MessageBuffer.Fifo
use kubemq_cpp.Transport.MessageBuffer.Invariant.{IsValid, contents, entries, drop_head-IsValid}
use kubemq_cpp.Transport.MessageBuffer.Refine.{contents-drop_head}

count-drop_head : (b : MessageBuffer) → (drop_head b).count ≡ b.count - 1
unfolding drop_head
count-drop_head b = refl

module _ {ℓ} {S : Type ℓ} (sender : S → Bytes → S × Bool) where
  -- What a drain leaves: the sender's state, a valid buffer, its contents, the number handed over.
  abbrev Drained : S × MessageBuffer × ℕ → S × List Bytes × ℕ → ℕ → Type ℓ
  Drained (s, b, n) (s', q, m) start = (s ≡ s') × IsValid b × (contents b ≡ q) × (n ≡ start + m)

  drain_loop-Drained :
      (fuel : ℕ) (s : S) {b : MessageBuffer} (n : ℕ)
      → IsValid b
      → b.count ≡ fuel
      → Drained (drain_loop sender fuel s b n) (Fifo.drain sender s (contents b)) n
  unfolding drain_loop Fifo.drain
  drain_loop-Drained zero s {b} n v e =
      let nothing : contents b ≡ [] = ap (entries b.buffer b.capacity b.head) e in
      rw nothing (refl, v, refl, omega arith)
  drain_loop-Drained (suc fuel) s {b} n v e =
      let valid : IsValid (drop_head b) = drop_head-IsValid v (omega arith) in
      let rest =
        drain_loop-Drained fuel (sender s (get_or b.buffer b.head [])).0 (n + 1) valid
          (omega (arith, count-drop_head b)) in
      rw (lt→ltb 0 b.count (omega arith), contents-drop_head v (omega arith))
        (elim (Bool-cases (sender s (get_or b.buffer b.head [])).1) [
          | inl on ↦ rw on (rest.0, rest.1, rest.2, rest.3 ∙ omega arith)
          | inr off ↦ rw off (refl, valid, refl, refl)
        ])

  -- Draining a valid buffer leaves it valid, and acts as the queue of its contents does: the messages
  -- go to the sender oldest first up to and with the first that it refuses, the rest stays queued, and
  -- the result is the number handed over.
  pub drain_refines :
      (s : S) {b : MessageBuffer}
      → IsValid b
      → let (s', b', n) = drain sender s b in
        IsValid b' × ((s', contents b', n) ≡ Fifo.drain sender s (contents b))
  unfolding drain
  drain_refines s {b} v =
      let done = drain_loop-Drained b.count s 0 v refl in
      let handed : (drain_loop sender b.count s b 0).2 ≡ (Fifo.drain sender s (contents b)).2 =
        omega (arith, done.3) in
      (done.1, λ i. (done.0 i, done.2 i, handed i))
