-- ===== src/Middleware/Chain.antt =====
-- src/internal/middleware/chain.cc and the template of chain.h. An operation acts on a state `S` and
-- returns a result (`Status`, or `StatusOr<T>`); an interceptor receives the operation that it wraps.
mod Tests
use kubemq_cpp.Base.{◌≡◌, refl, ap, sym, ◌∙◌, List, [], ◌∷◌, ◌++◌, append_assoc}
use mathlib.Core.List.{reverse, reverse-cons, reverse-append}

abbrev pub Operation : Type 0 → Type 0 → Type 0
Operation S R = S → S × R

abbrev pub Interceptor : Type 0 → Type 0 → Type 0
Interceptor S R = Operation S R → Operation S R

module _ {S R : Type 0} where
  -- `for (it = rbegin(); it != rend(); ++it) current = [interceptor, prev] { return interceptor(prev); }`
  unfoldable pub wrap_backwards : List (Interceptor S R) → Operation S R → Operation S R
  wrap_backwards [] current = current
  wrap_backwards (interceptor ∷ rest) prev = wrap_backwards rest (interceptor prev)

  -- `BuildChain`, and `RunChainOr` before its last call.
  unfoldable pub build_chain : List (Interceptor S R) → Operation S R → Operation S R
  build_chain [] operation = operation
  build_chain (i ∷ is) operation = wrap_backwards (reverse (i ∷ is)) operation

  -- `RunChain`
  unfoldable pub run_chain : List (Interceptor S R) → Operation S R → S → S × R
  run_chain interceptors operation s = build_chain interceptors operation s

  -- The documented order: the first interceptor is the outermost.
  unfoldable pub nest : List (Interceptor S R) → Operation S R → Operation S R
  nest [] operation = operation
  nest (i ∷ is) operation = i (nest is operation)

  wrap_backwards-append :
      (is js : List (Interceptor S R)) (operation : Operation S R)
      → wrap_backwards (is ++ js) operation ≡ wrap_backwards js (wrap_backwards is operation)
  unfolding wrap_backwards
  wrap_backwards-append [] js operation = refl
  wrap_backwards-append (i ∷ is) js operation = wrap_backwards-append is js (i operation)

  wrap_backwards-nest :
      (is : List (Interceptor S R)) (operation : Operation S R)
      → wrap_backwards (reverse is) operation ≡ nest is operation
  unfolding wrap_backwards nest
  wrap_backwards-nest [] operation = refl
  wrap_backwards-nest (i ∷ is) operation = rw (reverse-cons i is) (
      wrap_backwards-append (reverse is) (i ∷ []) operation
      ∙ ap i (wrap_backwards-nest is operation))

  build_chain-nest :
      (is : List (Interceptor S R)) (operation : Operation S R)
      → build_chain is operation ≡ nest is operation
  unfolding build_chain nest
  build_chain-nest [] operation = refl
  build_chain-nest (i ∷ is) operation = wrap_backwards-nest (i ∷ is) operation

  nest-append :
      (is js : List (Interceptor S R)) (operation : Operation S R)
      → nest (is ++ js) operation ≡ nest is (nest js operation)
  unfolding nest
  nest-append [] js operation = refl
  nest-append (i ∷ is) js operation = ap i (nest-append is js operation)

  -- A chain runs the operation inside all its interceptors, the first outermost; so a chain of two
  -- parts is the second part's chain run as the operation of the first.
  pub run_chain_lem :
      (is js : List (Interceptor S R)) (operation : Operation S R) (s : S)
      → (run_chain (is ++ js) operation s ≡ nest (is ++ js) operation s)
        × (run_chain (is ++ js) operation s ≡ run_chain is (run_chain js operation) s)
  unfolding run_chain
  run_chain_lem is js operation s = (
    λ i. build_chain-nest (is ++ js) operation i s,
    λ i.
        (build_chain-nest (is ++ js) operation
            ∙ nest-append is js operation
            ∙ sym (build_chain-nest is (nest js operation))
            ∙ ap (build_chain is) (sym (build_chain-nest js operation)))
          i s,
  )
