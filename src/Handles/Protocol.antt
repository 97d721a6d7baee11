-- ===== src/Handles/Protocol.antt =====
-- What is called on the stream over the life of a handle.
use kubemq_cpp.Base.{
  ◌≡◌, refl, inl, inr, Bool, true, false, List, [], ◌∷◌, if◌then◌else◌, Bool-cases,
}
use kubemq_cpp.Status.{Status}
use kubemq_cpp.Handles.{Call, Handle, start_reader, send, close, reader_ends, wait}

-- What happens to a handle.
pub data Act (A : Type 0) : Type 0 where
  sends : A → Act A
  closes reader_ending waits : Act A

module _ {A : Type 0} (accepts : List (Call A) → Bool) (closed broken : Status) where
  unfoldable pub act : Handle A → Act A → Handle A
  act h (sends a) = (send accepts closed broken a h).0
  act h closes = close h
  act h reader_ending = reader_ends h
  act h waits = wait h

  unfoldable pub play : Handle A → List (Act A) → Handle A
  play h [] = h
  play h (a ∷ more) = play (act h a) more

-- Only writes.
abbrev pub OnlyWrites : {A : Type 0} → List (Call A) → Type 0
OnlyWrites [] = true ≡ true
OnlyWrites (Call.write a ∷ calls) = OnlyWrites calls
OnlyWrites (Call.writes_done ∷ calls) = true ≡ false

-- The last call may be `WritesDone`; all others are writes.
abbrev pub InOrder : {A : Type 0} → List (Call A) → Type 0
InOrder [] = true ≡ true
InOrder (Call.write a ∷ calls) = OnlyWrites calls
InOrder (Call.writes_done ∷ calls) = OnlyWrites calls

-- A handle that is not done has only written, and its reader is not joined.
pub record IsSound {A : Type 0} (h : Handle A) : Type 0 where
  pub in_order : InOrder h.stream
  pub live : h.done ≡ false → OnlyWrites h.stream × (h.joinable ≡ true)

OnlyWrites-InOrder : {A : Type 0} (calls : List (Call A)) → OnlyWrites calls → InOrder calls
OnlyWrites-InOrder [] w = refl
OnlyWrites-InOrder (Call.write a ∷ calls) w = w
OnlyWrites-InOrder (Call.writes_done ∷ calls) w = cc

of_branch :
    {A : Type 0} (b : Bool) (p q : Handle A)
    → IsSound p
    → (b ≡ false → IsSound q)
    → IsSound (if b then p else q)
of_branch true p q v w = v
of_branch false p q v w = w refl

of_first :
    {A : Type 0} (b : Bool) (p q : Handle A × Status)
    → IsSound p.0
    → (b ≡ false → IsSound q.0)
    → IsSound (if b then p else q).0
of_first true p q v w = v
of_first false p q v w = w refl

close-done : {A : Type 0} (h : Handle A) → (close h).done ≡ true
unfolding close
close-done h = elim (Bool-cases h.done) [ inl d ↦ rw d refl | inr d ↦ rw d refl ]

module _ {A : Type 0} (accepts : List (Call A) → Bool) (closed broken : Status) where
  act-IsSound : (h : Handle A) (a : Act A) → IsSound h → IsSound (act accepts closed broken h a)
  unfolding act send close reader_ends wait
  act-IsSound h (sends a) v =
      of_first h.done _ _ v
        (λ d. record { in_order = (v.live d).0; live = λ e. ((v.live d).0, (v.live d).1) })
  act-IsSound h closes v =
      of_branch h.done h _ v (λ d. record { in_order = (v.live d).0; live = λ e. cc })
  act-IsSound h reader_ending v = record { in_order = v.in_order; live = λ e. cc }
  act-IsSound h waits v = record { in_order = v.in_order; live = λ e. cc }

  pub play-IsSound :
      (h : Handle A) (acts : List (Act A)) → IsSound h → IsSound (play accepts closed broken h acts)
  unfolding play
  play-IsSound h [] v = v
  play-IsSound h (a ∷ acts) v =
      play-IsSound (act accepts closed broken h a) acts (act-IsSound h a v)

  done_send : (h : Handle A) (a : A) → h.done ≡ true → send accepts closed broken a h ≡ (h, closed)
  unfolding send
  done_send h a d = rw d refl

  -- Whatever happens to a handle, in whatever order, its stream sees writes only, and after them at
  -- most one `WritesDone`, and nothing after that; so it is after one more `Send`, and a `Send` after
  -- `Close` is refused with the closed error, with nothing written.
  pub handle_protocol :
      (acts : List (Act A)) (a : A)
      → let h = play accepts closed broken start_reader acts in
        InOrder h.stream
        × InOrder (send accepts closed broken a h).0.stream
        × (send accepts closed broken a (close h) ≡ (close h, closed))
  unfolding start_reader act
  handle_protocol acts a =
      let v =
        play-IsSound start_reader acts (record { in_order = refl; live = λ e. (refl, refl) }) in
      let h = play accepts closed broken start_reader acts in
      (v.in_order, (act-IsSound h (sends a) v).in_order, done_send (close h) a (close-done h))
