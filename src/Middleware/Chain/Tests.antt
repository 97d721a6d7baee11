-- ===== src/Middleware/Chain/Tests.antt =====
-- Two interceptors that note the order in which they run.
use kubemq_cpp.Base.{ℕ, ◌≡◌, List, [], ◌∷◌, ◌++◌}
use kubemq_cpp.Middleware.Chain.{Operation, Interceptor, run_chain, nest, run_chain_lem}

abbrev noting : ℕ → Interceptor (List ℕ) ℕ
noting n next s = let (s', r) = next (s ++ n ∷ []) in (s' ++ n ∷ [], r)

abbrev last : Operation (List ℕ) ℕ
last s = (s ++ 0 ∷ [], 7)

run_chain_example :
    (run_chain ((noting 1 ∷ []) ++ noting 2 ∷ []) last []
      ≡ nest ((noting 1 ∷ []) ++ noting 2 ∷ []) last [])
    × (run_chain ((noting 1 ∷ []) ++ noting 2 ∷ []) last []
        ≡ run_chain (noting 1 ∷ []) (run_chain (noting 2 ∷ []) last) [])
run_chain_example = run_chain_lem (noting 1 ∷ []) (noting 2 ∷ []) last []
