-- ===== src/Concurrency/WaitsFor/Build.antt =====
-- src/concurrency/lock_manager.cpp: the loops of RunCycleDetection that build the graph from the lock
-- table: each request that waits gets an edge to each request of its queue that is granted.
-- `txn_set_` and `require_record_`, which the loops fill too, are left out.
use lab.Common.{
  ℕ, ◌≡◌, ◌∙◌, Bool, false, not, ◌&&◌, ◌||◌, List, [], ◌∷◌, arith, ◌==◌, if◌then◌else◌, contains,
  Bool-cases,
}
use lab.Concurrency.LockQueue.{LockRequest, LockRequestQueue}
use lab.Concurrency.WaitsFor.{Graph, next_nodes, add_edge, add_edge-next_nodes}

-- The inner loop, over the rest of the queue, for the waiting transaction `t`.
unfoldable pub add_granted : ℕ → List LockRequest → Graph → Graph
unfolding add_edge
add_granted t [] g = g
add_granted t (r ∷ rs) g = add_granted t rs (if r.granted then add_edge g t r.txn_id else g)

-- The loop over the rest of the queue `all`.
unfoldable pub add_waiting : List LockRequest → List LockRequest → Graph → Graph
unfolding add_granted
add_waiting all [] g = g
add_waiting all (r ∷ rs) g =
    add_waiting all rs (if r.granted then g else add_granted r.txn_id all g)

unfoldable pub build : List (ℕ × LockRequestQueue) → Graph → Graph
unfolding add_waiting
build [] g = g
build ((rid, q) ∷ rest) g = build rest (add_waiting q.request_queue q.request_queue g)

-- Whether the transaction has a granted request, or a waiting one.
unfoldable pub is_granted : ℕ → List LockRequest → Bool
is_granted u [] = false
is_granted u (r ∷ rs) = (r.granted && (r.txn_id == u)) || is_granted u rs

unfoldable pub is_waiting : ℕ → List LockRequest → Bool
is_waiting t [] = false
is_waiting t (r ∷ rs) = (not r.granted && (r.txn_id == t)) || is_waiting t rs

-- Whether `t` waits in some queue in which `u` is granted.
unfoldable pub waits_for : ℕ → ℕ → List (ℕ × LockRequestQueue) → Bool
waits_for t u [] = false
waits_for t u ((rid, q) ∷ rest) =
    (is_waiting t q.request_queue && is_granted u q.request_queue) || waits_for t u rest

module _ (t u : ℕ) where
  abbrev has : Graph → Bool
  has g = contains u (next_nodes g t)

  add_granted-has :
      (w : ℕ) (rs : List LockRequest) (g : Graph)
      → has (add_granted w rs g) ≡ (has g || ((w == t) && is_granted u rs))
  unfolding add_granted is_granted
  add_granted-has w [] g = ground (arith, Bool-cases (has g))
  add_granted-has w (r ∷ rs) g =
      add_granted-has w rs (if r.granted then add_edge g w r.txn_id else g)
      ∙ ground (
        arith,
        add_edge-next_nodes g w r.txn_id t u,
        Bool-cases (has g),
        Bool-cases r.granted,
        Bool-cases (is_granted u rs),
      )

  add_waiting-has :
      (all rs : List LockRequest) (g : Graph)
      → has (add_waiting all rs g) ≡ (has g || (is_waiting t rs && is_granted u all))
  unfolding add_waiting is_waiting
  add_waiting-has all [] g = ground (arith, Bool-cases (has g))
  add_waiting-has all (r ∷ rs) g =
      add_waiting-has all rs (if r.granted then g else add_granted r.txn_id all g)
      ∙ ground (
        arith,
        add_granted-has r.txn_id all g,
        Bool-cases (has g),
        Bool-cases r.granted,
        Bool-cases (is_waiting t rs),
        Bool-cases (is_granted u all),
      )

  -- The graph that RunCycleDetection builds on `g` has exactly the edges of `g` and those from each
  -- transaction that waits in some queue of the lock table to each that is granted in that queue.
  pub build-next_nodes :
      (table : List (ℕ × LockRequestQueue)) (g : Graph)
      → contains u (next_nodes (build table g) t)
        ≡ (contains u (next_nodes g t) || waits_for t u table)
  unfolding build waits_for
  build-next_nodes [] g = ground (arith, Bool-cases (has g))
  build-next_nodes ((rid, q) ∷ rest) g =
      build-next_nodes rest (add_waiting q.request_queue q.request_queue g)
      ∙ ground (
        arith,
        add_waiting-has q.request_queue q.request_queue g,
        Bool-cases (has g),
        Bool-cases (waits_for t u rest),
        Bool-cases (is_waiting t q.request_queue && is_granted u q.request_queue),
      )
