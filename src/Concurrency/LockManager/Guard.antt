-- ===== src/Concurrency/LockManager/Guard.antt =====
-- What holds of a transaction to which the lock manager grants a lock.
use lab.Common.{
  ℕ, zero, suc, ◌≡◌, ◌≢◌, inl, inr, refl, true, false, none, some, List, [], ◌∷◌, ◌++◌, arith, ◌==◌,
  if◌then◌else◌, contains, lookup-insert, Option-cases,
}
use lab.Concurrency.Transaction.{
  Transaction, TransactionState, growing, shrinking, committed, aborted, read_uncommitted,
  AbortReason, emplace,
}
use lab.Concurrency.LockManager.{
  System, grants, set_queue, queue_of, refusal, is_aborted, lock_shared, lock_exclusive,
}
use lab.Concurrency.LockQueue.{
  LockRequestQueue, LockMode, shared, exclusive, Count, at, below, is_positive, is_zero,
}

pub queue_of-set_queue :
    (s : System) (rid : ℕ) (q : LockRequestQueue) (r : ℕ)
    → queue_of (set_queue s rid q) r ≡ (if rid == r then q else queue_of s r)
unfolding queue_of
queue_of-set_queue s rid q r = ground (arith, lookup-insert rid r q s.lock_table)

pub contains-emplace : (rid : ℕ) (rids : List ℕ) → contains rid (emplace rid rids) ≡ true
unfolding emplace contains
contains-emplace rid rids = ground arith

-- A transaction that may be granted a lock: it is neither shrinking nor aborted, and not at
-- READ_UNCOMMITTED.
pub record MayLock (txn : Transaction) : Type 0 where
  pub not_shrinking : txn.state ≢ shrinking
  pub not_aborted : txn.state ≢ aborted
  pub not_read_uncommitted : txn.isolation_level ≢ read_uncommitted

MayLock-allowed : (txn : Transaction) → refusal txn ≡ none → is_aborted txn ≡ false → MayLock txn
unfolding refusal is_aborted
MayLock-allowed txn h k = record {
  not_shrinking = λ e. ground arith;
  not_aborted = λ e. ground arith;
  not_read_uncommitted = λ e. allowed txn.state e refl;
}
  where
    allowed :
        (state : TransactionState) → txn.isolation_level ≡ read_uncommitted → txn.state ≡ state → ⊥
    allowed growing e f = ground arith
    allowed shrinking e f = ground arith
    allowed committed e f = ground arith
    allowed aborted e f = ground arith

not_zero : (n : Count) → is_zero n ≡ true → is_positive n ≡ false
unfolding is_zero is_positive
not_zero (at zero) h = refl
not_zero (at (suc n)) h = cc
not_zero (below n) h = refl

-- What a granted lock on `rid` means. `locks` are the RIDs that a transaction has in its set.
pub record Granted (s s' : System) (t rid : ℕ) (locks : Transaction → List ℕ) : Type 0 where
  pub may_lock : MayLock (s.txns t)
  pub not_writing : (queue_of s rid).is_writing ≡ false
  pub recorded : contains rid (locks (s'.txns t)) ≡ true
  pub same_state : (s'.txns t).state ≡ (s.txns t).state
  pub others : (u : ℕ) → u ≢ t → s'.txns u ≡ s.txns u

-- The queue after a request is added.
abbrev pub requested : System → ℕ → ℕ → LockMode → LockRequestQueue
requested s t rid mode =
    let q = queue_of s rid in
    record q {
      request_queue =
          q.request_queue ++ (record { txn_id = t; lock_mode = mode; granted = false }) ∷ [];
    }

module _ (s : System) (t rid : ℕ) where
  shared-Granted :
      refusal (s.txns t) ≡ none
      → (lock_shared s t rid).1 ≡ grants
      → Granted s (lock_shared s t rid).0 t rid (λ txn. txn.shared_lock_set)
  unfolding lock_shared
  shared-Granted e g = record {
    may_lock =
        MayLock-allowed (s.txns t) e
          (ground (arith, queue_of-set_queue s rid (requested s t rid shared) rid));
    not_writing = ground (arith, queue_of-set_queue s rid (requested s t rid shared) rid);
    recorded = ground (
      arith,
      queue_of-set_queue s rid (requested s t rid shared) rid,
      contains-emplace rid (s.txns t).shared_lock_set,
    );
    same_state = ground (arith, queue_of-set_queue s rid (requested s t rid shared) rid);
    others = λ u d. ground (arith, queue_of-set_queue s rid (requested s t rid shared) rid);
  }

  refused_shared :
      (reason : AbortReason) → refusal (s.txns t) ≡ some reason → (lock_shared s t rid).1 ≢ grants
  unfolding lock_shared
  refused_shared reason e g = ground arith

  -- LockShared grants a lock at once only to a transaction that may lock, on a RID whose queue has
  -- `is_writing_` false; the RID is then in its shared set, its state is the same, and nothing changes for
  -- other transactions.
  pub lock_shared-Granted :
      (lock_shared s t rid).1 ≡ grants
      → Granted s (lock_shared s t rid).0 t rid (λ txn. txn.shared_lock_set)
  lock_shared-Granted g = elim (Option-cases (refusal (s.txns t))) [
    | inl e ↦ shared-Granted e g
    | inr (reason, e) ↦ absurd (refused_shared reason e g)
  ]

  exclusive-Granted :
      refusal (s.txns t) ≡ none
      → (lock_exclusive s t rid).1 ≡ grants
      → Granted s (lock_exclusive s t rid).0 t rid (λ txn. txn.exclusive_lock_set)
        × (is_positive (queue_of s rid).sharelock_count ≡ false)
  unfolding lock_exclusive
  exclusive-Granted e g =
      let look = queue_of-set_queue s rid (requested s t rid exclusive) rid in
      let positive = not_zero (queue_of s rid).sharelock_count in
      (
        record {
          may_lock = MayLock-allowed (s.txns t) e (ground (arith, look));
          not_writing = ground (arith, look);
          recorded = ground (arith, look, contains-emplace rid (s.txns t).exclusive_lock_set);
          same_state = ground (arith, look);
          others = λ u d. ground (arith, look);
        },
        ground (arith, look, positive),
      )

  refused_exclusive :
      (reason : AbortReason)
      → refusal (s.txns t) ≡ some reason
      → (lock_exclusive s t rid).1 ≢ grants
  unfolding lock_exclusive
  refused_exclusive reason e g = ground arith

  -- LockExclusive grants a lock at once only to a transaction that is neither shrinking nor aborted
  -- and not at READ_UNCOMMITTED, on a RID whose queue has is_writing_ false and a shared lock count
  -- that is not positive; the RID is then in the exclusive set of the transaction, its state is the
  -- same, and nothing changes for other transactions.
  pub lock_exclusive-Granted :
      (lock_exclusive s t rid).1 ≡ grants
      → Granted s (lock_exclusive s t rid).0 t rid (λ txn. txn.exclusive_lock_set)
        × (is_positive (queue_of s rid).sharelock_count ≡ false)
  lock_exclusive-Granted g = elim (Option-cases (refusal (s.txns t))) [
    | inl e ↦ exclusive-Granted e g
    | inr (reason, e) ↦ absurd (refused_exclusive reason e g)
  ]
