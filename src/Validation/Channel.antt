-- ===== src/Validation/Channel.antt =====
-- Which channels pass, said of the text itself.
use kubemq_cpp.Base.{
  ℕ, ◌==◌, ◌≡◌, ◌≢◌, ◌↔◌, refl, sym, ap, ◌∙◌, inl, inr, Bool, true, false, [], ◌∷◌, ◌++◌, any,
  Bytes, is_empty, is_empty-ne_nil, Bool-cases, arith,
}
use kubemq_cpp.Status.{is_ok, is_ok_code}
use kubemq_cpp.Validation.{
  is_ascii_space, back, has, validate_channel, validate_channel_no_wildcard,
}

-- No character of the text passes the test.
abbrev pub Without : (ℕ → Bool) → Bytes → Type 0
Without p s = (pre post : Bytes) (c : ℕ) → s ≡ pre ++ c ∷ post → p c ≡ false

pub record IsChannel (s : Bytes) : Type 0 where
  pub some_name : s ≢ []
  pub no_space : Without is_ascii_space s
  pub no_dot : (pre : Bytes) → s ≢ pre ++ 46 ∷ []

any-append :
    (p : ℕ → Bool) (pre post : Bytes) (c : ℕ) → any p (pre ++ c ∷ post) ≡ false → p c ≡ false
any-append p [] post c h = ground arith
any-append p (d ∷ pre) post c h = any-append p pre post c (ground arith)

any-Without : (p : ℕ → Bool) (s : Bytes) → any p s ≡ false → Without p s
any-Without p s h pre post c e = any-append p pre post c (ap (any p) (sym e) ∙ h)

Without-any : (p : ℕ → Bool) (s : Bytes) → Without p s → any p s ≡ false
Without-any p [] w = refl
Without-any p (c ∷ s) w =
    rw (w [] s c refl) (Without-any p s (λ pre post d e. w (c ∷ pre) post d (ap (λ t. c ∷ t) e)))

back-append : (pre : Bytes) (c : ℕ) → back (pre ++ c ∷ []) ≡ c
unfolding back
back-append [] c = refl
back-append (d ∷ []) c = refl
back-append (d ∷ e ∷ pre) c = back-append (e ∷ pre) c

back-split : (s : Bytes) → s ≢ [] → (pre : Bytes) × (s ≡ pre ++ back s ∷ [])
unfolding back
back-split [] h = absurd (h refl)
back-split (c ∷ []) h = ([], refl)
back-split (c ∷ d ∷ s) h =
    let (pre, e) = back-split (d ∷ s) (λ x. cc) in (c ∷ pre, ap (λ t. c ∷ t) e)

-- The three tests of the source.
Tests : Bytes → Type 0
Tests s = (is_empty s ≡ false) × (any is_ascii_space s ≡ false) × ((back s == 46) ≡ false)

ok-Tests : (s operation : Bytes) → is_ok (validate_channel s operation) ≡ true → Tests s
unfolding validate_channel is_ok_code Tests
ok-Tests s operation h = ground arith

Tests-ok : (s operation : Bytes) → Tests s → is_ok (validate_channel s operation) ≡ true
unfolding validate_channel is_ok_code Tests
Tests-ok s operation (a, b, c) = rw (a, b, c) refl

Tests-IsChannel : (s : Bytes) → Tests s → IsChannel s
unfolding Tests is_empty
Tests-IsChannel s (a, b, c) = record {
  some_name = λ e. ground arith;
  no_space = any-Without is_ascii_space s b;
  no_dot = λ pre e. ground (arith, back-append pre 46);
}

IsChannel-Tests : (s : Bytes) → IsChannel s → Tests s
unfolding Tests
IsChannel-Tests s c =
    let (pre, e) = back-split s c.some_name in
    (
      is_empty-ne_nil s c.some_name,
      Without-any is_ascii_space s c.no_space,
      elim (Bool-cases (back s == 46)) [
        | inl dot ↦ absurd (c.no_dot pre (e ∙ ap (λ x. pre ++ x ∷ []) (ground (arith, dot))))
        | inr other ↦ other
      ],
    )

-- A channel passes exactly when it has a name, without white space and without a dot at its end.
pub validate_channel_lem :
    (s operation : Bytes) → (is_ok (validate_channel s operation) ≡ true) ↔ IsChannel s
validate_channel_lem s operation = (
  λ h. Tests-IsChannel s (ok-Tests s operation h),
  λ c. Tests-ok s operation (IsChannel-Tests s c),
)

-- A channel to send to also has neither `*` nor `>`.
pub validate_channel_no_wildcard_lem :
    (s operation : Bytes)
    → (is_ok (validate_channel_no_wildcard s operation) ≡ true)
      ↔ (IsChannel s × Without (λ d. d == 42) s × Without (λ d. d == 62) s)
unfolding validate_channel_no_wildcard has is_ok_code
validate_channel_no_wildcard_lem s operation = (
  λ h.
      let checked : (is_ok (validate_channel s operation) ≡ true)
          × (any (λ d. d == 42) s ≡ false)
          × (any (λ d. d == 62) s ≡ false) =
        ground arith in
      let (a, b, c) = checked in
      ((validate_channel_lem s operation).0 a, any-Without _ s b, any-Without _ s c),
  λ (c, star, more).
      rw
        (
          (validate_channel_lem s operation).1 c,
          Without-any (λ d. d == 42) s star,
          Without-any (λ d. d == 62) s more,
        )
        refl,
)
