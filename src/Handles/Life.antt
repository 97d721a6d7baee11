-- ===== src/Handles/Life.antt =====
-- The end of a handle.
use kubemq_cpp.Base.{◌≡◌, ◌∙◌, refl, Bool, true, false, List}
use kubemq_cpp.Status.{Status}
use kubemq_cpp.Handles.{Call, Handle, start_reader, close, reader_ends, wait, destroy_terminates}
use kubemq_cpp.Handles.Protocol.{Act, play, play-IsSound, IsSound}

ends : {A : Type 0} (h : Handle A) → (destroy_terminates (reader_ends h) ≡ h.joinable)
unfolding destroy_terminates close reader_ends
ends h = refl

waits : {A : Type 0} (h : Handle A) → destroy_terminates (wait (reader_ends h)) ≡ false
unfolding destroy_terminates close reader_ends wait
waits h = refl

closes : {A : Type 0} (h : Handle A) → h.done ≡ false → destroy_terminates h ≡ false
unfolding destroy_terminates close
closes h d = rw d refl

module _ {A : Type 0} (accepts : List (Call A) → Bool) (closed broken : Status) where
  -- Of a handle that is not done, after any history: it can be destroyed, which joins its reader; but
  -- once the server has ended the stream, destroying it takes the process down, since `Close` returns
  -- before its join, unless `Wait` was called.
  pub destroy_handle :
      (acts : List (Act A))
      → (play accepts closed broken start_reader acts).done ≡ false
      → let h = play accepts closed broken start_reader acts in
        (destroy_terminates h ≡ false)
        × (destroy_terminates (reader_ends h) ≡ true)
        × (destroy_terminates (wait (reader_ends h)) ≡ false)
  unfolding start_reader
  destroy_handle acts live =
      let h = play accepts closed broken start_reader acts in
      let v : IsSound h =
        play-IsSound accepts closed broken start_reader acts
          (record { in_order = refl; live = λ e. (refl, refl) }) in
      (closes h live, ends h ∙ (v.live live).1, waits h)
