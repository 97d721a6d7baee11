-- ===== src/Transport/MessageBuffer/Refine.antt =====
-- `Push` and the rounds of `Drain` act on the contents of a valid ring as the queue of `Fifo` does.
use kubemq_cpp.Base.{
  ℕ, zero, suc, ◌+◌, ◌-◌, ◌%◌, ◌≤◌, ◌<◌, ◌≡◌, refl, ap, ap₂, sym, ◌∙◌, ◌≢◌, inl, inr, List, [], ◌∷◌,
  ◌++◌, Bytes, arith, length, get_or, set, get_or-set_self, get_or-set_ne, Bool-cases, ◌==◌,
}
use native.Mathlib.Nat.{mod-lt}
use kubemq_cpp.Transport.MessageBuffer.{MessageBuffer, push, drop_head}
use kubemq_cpp.Transport.MessageBuffer.Fifo
use kubemq_cpp.Transport.MessageBuffer.Invariant.{
  IsValid, mod-wrap, add-mod_left, entries, contents, length-entries, push_full, push_room,
}

-- Two places of one window have different indices.
index-ne : (h k n c : ℕ) → h < c → k < n → n < k + c → n ≤ c → (h + k) % c ≢ (h + n) % c
index-ne h k n c hh lo hi top e = ground (arith, mod-wrap (h + k) c, mod-wrap (h + n) c)

module _ (buffer : List Bytes) (c h t : ℕ) (x : Bytes) where
  -- A write outside a window leaves it alone.
  entries-set_ne :
      (n : ℕ)
      → ((k : ℕ) → k < n → t ≢ (h + k) % c)
      → entries (set buffer t x) c h n ≡ entries buffer c h n
  entries-set_ne zero away = refl
  entries-set_ne (suc n) away =
      ap₂ (λ l y. l ++ y ∷ []) (entries-set_ne n (λ k lt. away k (omega arith)))
        (get_or-set_ne buffer x [] (away n (omega arith)))

  -- A write just past a window extends it.
  entries-set :
      (n : ℕ)
      → h < c
      → n < c
      → c ≤ length buffer
      → t ≡ (h + n) % c
      → entries (set buffer t x) c h (suc n) ≡ entries buffer c h n ++ x ∷ []
  entries-set n hh hn room e =
      ap₂ (λ l y. l ++ y ∷ [])
        (entries-set_ne n
          (λ k lt p. index-ne h k n c hh lt (omega arith) (omega arith) (sym p ∙ e)))
        (rw (← e) (
          get_or-set_self buffer t x []
            (rw e (omega (arith, mod-lt (h + n) {m = c} (omega arith))))))

-- A window that is not empty is its first message, then the window from the next index on.
entries-suc :
    (buffer : List Bytes) (c h n : ℕ)
    → h < c
    → entries buffer c h (suc n) ≡ get_or buffer h [] ∷ entries buffer c ((h + 1) % c) n
entries-suc buffer c h zero hh =
    ap (λ k. get_or buffer k [] ∷ []) (ground (arith, mod-wrap (h + 0) c))
entries-suc buffer c h (suc n) hh =
    ap₂ (λ l k. l ++ get_or buffer k [] ∷ []) (entries-suc buffer c h n hh)
      (sym (add-mod_left (h + 1) n (h + suc n) c (omega arith)))

module _ (buffer : List Bytes) (c h k : ℕ) (hh : h < c) where
  -- At the capacity: the head moves on, and the message goes to where it stood.
  entries-set_full :
      (t : ℕ) (x : Bytes)
      → c ≡ suc k
      → c ≤ length buffer
      → t ≡ (h + suc k) % c
      → entries (set buffer t x) c ((h + 1) % c) (suc k)
        ≡ Fifo.tail (entries buffer c h (suc k)) ++ x ∷ []
  unfolding Fifo.tail
  entries-set_full t x full room e = rw (entries-suc buffer c h k hh) (
      entries-set buffer c ((h + 1) % c) t x k (mod-lt (h + 1) (omega arith)) (omega arith) room
        (e ∙ sym (add-mod_left (h + 1) k (h + suc k) c (omega arith))))

  -- Clearing the place at the head does not touch the other messages.
  entries-clear_head :
      (j : ℕ)
      → suc j ≤ c
      → entries (set buffer h []) c ((h + 1) % c) j ≡ entries buffer c ((h + 1) % c) j
  entries-clear_head j few = entries-set_ne buffer c ((h + 1) % c) h [] j λ i lt e.
      index-ne h 0 (1 + i) c hh (omega arith) (omega arith) (omega arith) (
        ground (arith, mod-wrap (h + 0) c)
        ∙ e
        ∙ add-mod_left (h + 1) i (h + (1 + i)) c (omega arith))

module _ (buffer : List Bytes) (c h : ℕ) (hh : h < c) where
  -- The last two facts with the count as it stands in the record.
  entries-full :
      (n t : ℕ) (x : Bytes)
      → n ≡ c
      → c ≤ length buffer
      → t ≡ (h + n) % c
      → entries (set buffer t x) c ((h + 1) % c) n ≡ Fifo.tail (entries buffer c h n) ++ x ∷ []
  entries-full zero t x full room e = absurd (omega arith)
  entries-full (suc k) t x full room e = entries-set_full buffer c h k hh t x (sym full) room e

  entries-drop :
      (n : ℕ)
      → 0 < n
      → n ≤ c
      → entries buffer c h n
        ≡ get_or buffer h [] ∷ entries (set buffer h []) c ((h + 1) % c) (n - 1)
  entries-drop zero pos few = elim pos [ ]
  entries-drop (suc k) pos few =
      entries-suc buffer c h k hh
      ∙ ap (λ l. get_or buffer h [] ∷ l)
          (sym (entries-clear_head buffer c h k hh k few)
            ∙ ap (entries (set buffer h []) c ((h + 1) % c)) {x = k} {y = suc k - 1} (omega arith))

-- A valid buffer takes a message as the queue of its contents does, and reports the same number of
-- evicted messages: below the capacity the message is appended; at it the oldest is forgotten first.
pub push_refines :
    {b : MessageBuffer} (message : Bytes)
    → IsValid b
    → let (b', evicted) = push b message in
      (contents b', evicted) ≡ Fifo.push b.capacity (contents b) message
unfolding Fifo.push
push_refines {b} message v = elim (Bool-cases (b.count == b.capacity)) [
  | inl full ↦
      rw (push_full b message full, length-entries, full)
        (ap (λ l. (l, 1))
          (entries-full b.buffer b.capacity b.head v.head_in b.count b.tail message (ground arith)
            (omega arith) v.tail_at))
  | inr room ↦
      rw (push_room b message room, length-entries, room)
        (ap (λ l. (l, 0))
          (ap (entries (set b.buffer b.tail message) b.capacity b.head) {x = b.count + 1}
              {y = suc b.count} (omega arith)
            ∙ entries-set b.buffer b.capacity b.head b.tail message b.count v.head_in (ground arith)
                (omega arith) v.tail_at))
]

-- A round of `Drain` takes the oldest message off.
pub contents-drop_head :
    {b : MessageBuffer}
    → IsValid b
    → 0 < b.count
    → contents b ≡ get_or b.buffer b.head [] ∷ contents (drop_head b)
unfolding drop_head
contents-drop_head {b} v h = entries-drop b.buffer b.capacity b.head v.head_in b.count h v.count_in
