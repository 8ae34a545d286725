-- ===== src/Concurrency/LockManager/Safety.antt =====
-- The states of transactions under the lock manager: two-phase locking.
use lab.Common.{
  ℕ, zero, ◌≡◌, ◌≢◌, ◌⊎◌, inl, inr, refl, sym, true, none, arith, ok, ◌==◌, lookup, Bool-cases,
  Option-cases,
}
use lab.Concurrency.Transaction.{
  TransactionState, growing, shrinking, committed, aborted, IsolationLevel, read_uncommitted,
  repeatable_read, read_committed,
}
use lab.Concurrency.LockManager.{
  System, Reply, set_state, queue_of, refusal, shared_ready, exclusive_ready, resume_shared,
  resume_exclusive, resume_upgrade, enqueue, lock_shared, lock_exclusive, lock_upgrade,
  give_up_shared, mark_upgrading, unlock, after_unlock,
}
use lab.Concurrency.LockQueue.{LockMode, shared, exclusive, mode_of}

-- The moves of the state diagram of transaction.h, as far as the lock manager goes, and one that it does
-- not have, from committed to aborted.
pub data Moves : TransactionState → TransactionState → Type 0 where
  stays : {a b : TransactionState} → a ≡ b → Moves a b
  shrinks : {a b : TransactionState} → a ≡ growing → b ≡ shrinking → Moves a b
  aborts_growing : {a b : TransactionState} → a ≡ growing → b ≡ aborted → Moves a b
  aborts_shrinking : {a b : TransactionState} → a ≡ shrinking → b ≡ aborted → Moves a b
  aborts_committed : {a b : TransactionState} → a ≡ committed → b ≡ aborted → Moves a b

aborts_from : (a b : TransactionState) → b ≡ aborted → Moves a b
aborts_from growing b e = aborts_growing refl e
aborts_from shrinking b e = aborts_shrinking refl e
aborts_from committed b e = aborts_committed refl e
aborts_from aborted b e = stays (sym e)

-- One step of the lock manager for a transaction: a request, the end of a wait, or an unlock.
pub data Step (s : System) : System → Type 0 where
  shares : (t rid : ℕ) → Step s (lock_shared s t rid).0
  excludes : (t rid : ℕ) → Step s (lock_exclusive s t rid).0
  upgrades : (t rid : ℕ) {s' : System} (r : Reply) → lock_upgrade s t rid ≡ ok (s', r) → Step s s'
  resumes_shared : (t rid : ℕ) → shared_ready s t rid ≡ true → Step s (resume_shared s t rid).0
  resumes_exclusive :
      (t rid : ℕ) → exclusive_ready s t rid ≡ true → Step s (resume_exclusive s t rid).0
  resumes_upgrade : (t rid : ℕ) → exclusive_ready s t rid ≡ true → Step s (resume_upgrade s t rid).0
  unlocks : (t rid : ℕ) {s' : System} → unlock s t rid ≡ ok s' → Step s s'
  -- the cycle detection aborts a victim
  kills : (t : ℕ) → Step s (set_state s t aborted)

module _ (s : System) (t rid u : ℕ) where
  abbrev Keeps : System → Type 0
  Keeps s' = Moves (s.txns u).state (s'.txns u).state

  resume_shared-state : ((resume_shared s t rid).0.txns u).state ≡ (s.txns u).state
  unfolding resume_shared
  resume_shared-state = ground arith

  resume_exclusive-state : ((resume_exclusive s t rid).0.txns u).state ≡ (s.txns u).state
  unfolding resume_exclusive
  resume_exclusive-state = ground arith

  resume_upgrade-state : ((resume_upgrade s t rid).0.txns u).state ≡ (s.txns u).state
  unfolding resume_upgrade
  resume_upgrade-state = ground arith

  killed : Keeps (set_state s t aborted)
  killed = elim (Bool-cases (t == u)) [
    | inl same ↦ aborts_from (s.txns u).state _ (ground arith)
    | inr other ↦ stays (ground arith)
  ]

  give_up_shared-state : ((give_up_shared s t rid).txns u).state ≡ (s.txns u).state
  unfolding give_up_shared
  give_up_shared-state = ground arith

  -- A transaction that is growing, at each level and mode.
  growing-Moves :
      (mode : LockMode)
      → (s.txns t).state ≡ growing
      → ((s.txns t).isolation_level ≡ read_committed)
        ⊎ ((s.txns t).isolation_level ≢ read_committed)
      → Moves (s.txns t).state (after_unlock (s.txns t) mode)
  unfolding after_unlock
  growing-Moves exclusive e l = shrinks e (ground arith)
  growing-Moves shared e (inl f) = stays (ground arith)
  growing-Moves shared e (inr f) = shrinks e (ground arith)

  level-cases : (level : IsolationLevel) → (level ≡ read_committed) ⊎ (level ≢ read_committed)
  level-cases read_committed = inl refl
  level-cases repeatable_read = inr (λ e. ground arith)
  level-cases read_uncommitted = inr (λ e. ground arith)

  after_unlock-Moves :
      (mode : LockMode)
      → (state : TransactionState) → (s.txns t).state ≡ state
      → Moves (s.txns t).state (after_unlock (s.txns t) mode)
  unfolding after_unlock
  after_unlock-Moves mode growing e = growing-Moves mode e (level-cases (s.txns t).isolation_level)
  after_unlock-Moves mode shrinking e = stays (ground arith)
  after_unlock-Moves mode committed e = stays (ground arith)
  after_unlock-Moves mode aborted e = stays (ground arith)

module _ (s : System) (t rid u : ℕ) where
  lock_shared-Moves : Moves (s.txns u).state ((lock_shared s t rid).0.txns u).state
  unfolding lock_shared enqueue
  lock_shared-Moves = elim (Option-cases (refusal (s.txns t))) [
    | inl e ↦ stays (ground (arith, resume_shared-state (enqueue s t rid shared) t rid u))
    | inr (reason, e) ↦ elim (Bool-cases (t == u)) [
      | inl same ↦ aborts_from (s.txns u).state _ (ground arith)
      | inr other ↦ stays (ground arith)
    ]
  ]

  lock_exclusive-Moves : Moves (s.txns u).state ((lock_exclusive s t rid).0.txns u).state
  unfolding lock_exclusive enqueue
  lock_exclusive-Moves = elim (Option-cases (refusal (s.txns t))) [
    | inl e ↦ stays (ground (arith, resume_exclusive-state (enqueue s t rid exclusive) t rid u))
    | inr (reason, e) ↦ elim (Bool-cases (t == u)) [
      | inl same ↦ aborts_from (s.txns u).state _ (ground arith)
      | inr other ↦ stays (ground arith)
    ]
  ]

module _ (s : System) (t rid : ℕ) where
  upgrade_request-Moves :
      (s' : System) (r : Reply) (u : ℕ)
      → refusal (s.txns t) ≡ none
      → lock_upgrade s t rid ≡ ok (s', r)
      → Moves (s.txns u).state (s'.txns u).state
  unfolding lock_upgrade
  upgrade_request-Moves s' r u e h = elim (Bool-cases (queue_of s rid).upgrading) [
    | inl upgrading ↦ elim (Bool-cases (t == u)) [
      | inl same ↦ aborts_from (s.txns u).state _ (ground arith)
      | inr other ↦ stays (ground arith)
    ]
    | inr free ↦ stays (
        ground (
          arith,
          resume_upgrade-state (mark_upgrading (give_up_shared s t rid) rid) t rid u,
          resume_upgrade-state (give_up_shared s t rid) t rid u,
          give_up_shared-state s t rid u,
        ))
  ]

  lock_upgrade-Moves :
      (s' : System) (r : Reply) (u : ℕ)
      → lock_upgrade s t rid ≡ ok (s', r)
      → Moves (s.txns u).state (s'.txns u).state
  unfolding lock_upgrade
  lock_upgrade-Moves s' r u h = elim (Option-cases (refusal (s.txns t))) [
    | inl e ↦ upgrade_request-Moves s' r u e h
    | inr (reason, e) ↦ elim (Bool-cases (t == u)) [
      | inl same ↦ aborts_from (s.txns u).state _ (ground arith)
      | inr other ↦ stays (ground arith)
    ]
  ]

  unlock-Moves :
      (s' : System) (u : ℕ) → unlock s t rid ≡ ok s' → Moves (s.txns u).state (s'.txns u).state
  unfolding unlock
  unlock-Moves s' u h = elim (Option-cases (lookup rid s.lock_table)) [
    | inl e ↦ ground arith
    | inr (q, e) ↦ elim (Option-cases (mode_of t q.request_queue)) [
      | inl f ↦ ground arith
      | inr (mode, f) ↦ elim (Bool-cases (t == u)) [
        | inl same ↦
            let moved : (s'.txns u).state ≡ after_unlock (s.txns t) mode = ground arith in
            let here : (s.txns u).state ≡ (s.txns t).state = ground arith in
            rw (here, moved) (after_unlock-Moves s t rid t mode (s.txns t).state refl)
        | inr other ↦ stays (ground arith)
      ]
    ]
  ]

-- Under every step of the lock manager the state of each transaction stays, or moves along the state
-- diagram, from growing to shrinking or from one of these to aborted, or goes from committed to
-- aborted, which the diagram does not have.
pub Step-Moves : {s s' : System} → Step s s' → (u : ℕ) → Moves (s.txns u).state (s'.txns u).state
Step-Moves {s} (shares t rid) u = lock_shared-Moves s t rid u
Step-Moves {s} (excludes t rid) u = lock_exclusive-Moves s t rid u
Step-Moves {s} {s'} (upgrades t rid r h) u = lock_upgrade-Moves s t rid s' r u h
Step-Moves {s} (resumes_shared t rid h) u = stays (sym (resume_shared-state s t rid u))
Step-Moves {s} (resumes_exclusive t rid h) u = stays (sym (resume_exclusive-state s t rid u))
Step-Moves {s} (resumes_upgrade t rid h) u = stays (sym (resume_upgrade-state s t rid u))
Step-Moves {s} {s'} (unlocks t rid h) u = unlock-Moves s t rid s' u h
Step-Moves {s} (kills t) u = killed s t zero u

-- A history of the lock manager.
pub data Steps : System → System → Type 0 where
  done : {s : System} → Steps s s
  next : {s s' s'' : System} → Step s s' → Steps s' s'' → Steps s s''

-- Growing is over for the transaction.
abbrev pub Past : TransactionState → Type 0
Past state = state ≢ growing

Moves-Past : (a b : TransactionState) → Moves a b → Past a → Past b
Moves-Past a b (stays e) p = λ f. ground arith
Moves-Past a b (shrinks e f) p = absurd (p e)
Moves-Past a b (aborts_growing e f) p = absurd (p e)
Moves-Past a b (aborts_shrinking e f) p = λ g. ground arith
Moves-Past a b (aborts_committed e f) p = λ g. ground arith

-- A transaction that has left its growing phase does not grow again, whatever steps the lock
-- manager makes.
pub Steps-Past :
    {s s' : System} → Steps s s' → (u : ℕ) → Past (s.txns u).state → Past (s'.txns u).state
Steps-Past done u p = p
Steps-Past {s} (next {s' = m} step steps) u p =
    Steps-Past steps u (Moves-Past (s.txns u).state (m.txns u).state (Step-Moves step u) p)
