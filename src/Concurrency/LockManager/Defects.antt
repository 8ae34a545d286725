-- ===== src/Concurrency/LockManager/Defects.antt =====
-- Where LockExclusive, LockUpgrade and Unlock leave the lock table.
use lab.Common.{
  ℕ, zero, ◌≡◌, ◌≢◌, inl, inr, refl, sym, ◌∙◌, true, false, none, arith, ok, lookup, lookup-insert,
  Option-cases,
}
use lab.Concurrency.Transaction.{
  Transaction, TransactionState, growing, shrinking, committed, aborted, IsolationLevel,
  read_uncommitted, repeatable_read, read_committed, upgrade_conflict, emplace,
}
use lab.Concurrency.LockManager.{
  System, grants, throws, set_txn, set_state, queue_of, refusal, is_aborted, exclusive_ready,
  withdraw, resume_exclusive, resume_upgrade, enqueue, lock_exclusive, lock_upgrade, unlock,
}
use lab.Concurrency.LockQueue.{
  LockRequestQueue, shared, exclusive, at, release, is_held, is_positive, mode_of, change_request,
  grant, erase_request,
}
use lab.Concurrency.LockManager.Guard.{
  queue_of-set_queue, MayLock, requested, lock_exclusive-Granted,
}

-- No lock on the RID is known to its queue.
pub record IsFree (q : LockRequestQueue) : Type 0 where
  pub no_writer : q.is_writing ≡ false
  pub no_reader : q.sharelock_count ≡ at zero

MayLock-refusal : (txn : Transaction) → MayLock txn → refusal txn ≡ none
unfolding refusal
MayLock-refusal txn m = by_level txn.state refl txn.isolation_level refl
  where
    by_level :
        (state : TransactionState)
        → txn.state ≡ state
        → (level : IsolationLevel) → txn.isolation_level ≡ level
        → refusal txn ≡ none
    by_level shrinking e level f = absurd (m.not_shrinking e)
    by_level aborted e level f = absurd (m.not_aborted e)
    by_level growing e read_uncommitted f = absurd (m.not_read_uncommitted f)
    by_level growing e repeatable_read f = ground arith
    by_level growing e read_committed f = ground arith
    by_level committed e read_uncommitted f = absurd (m.not_read_uncommitted f)
    by_level committed e repeatable_read f = ground arith
    by_level committed e read_committed f = ground arith

module _ (s : System) (t rid : ℕ) where
  -- Where LockExclusive is granted at once, the queue is as free as before.
  lock_exclusive-IsFree :
      MayLock (s.txns t)
      → IsFree (queue_of s rid)
      → ((lock_exclusive s t rid).1 ≡ grants) × IsFree (queue_of (lock_exclusive s t rid).0 rid)
  unfolding lock_exclusive is_held is_positive is_aborted resume_exclusive exclusive_ready enqueue
  lock_exclusive-IsFree m f =
      let look = queue_of-set_queue s rid (requested s t rid exclusive) rid in
      let queued = enqueue s t rid exclusive in
      let q = requested s t rid exclusive in
      let granted_look =
        queue_of-set_queue
          (set_txn queued t (record (queued.txns t) {
            exclusive_lock_set = emplace rid (queued.txns t).exclusive_lock_set;
          }))
          rid
          (record (queue_of queued rid) {
            request_queue = change_request t grant (queue_of queued rid).request_queue;
          })
          rid in
      let refused = MayLock-refusal (s.txns t) m in
      (
        ground (arith, look),
        record {
          no_writer = ground (arith, look, granted_look);
          no_reader = ground (arith, look, granted_look);
        },
      )

module _ (s : System) (t u rid : ℕ) where
  -- On a RID that is free, two different transactions that may lock are granted an exclusive lock one
  -- after the other, since LockExclusive does not set is_writing_.
  pub lock_exclusive-twice :
      t ≢ u
      → MayLock (s.txns t)
      → MayLock (s.txns u)
      → IsFree (queue_of s rid)
      → (((lock_exclusive s t rid).1 ≡ grants)
          × ((lock_exclusive (lock_exclusive s t rid).0 u rid).1 ≡ grants))
  lock_exclusive-twice d m n f =
      let first = lock_exclusive-IsFree s t rid m f in
      let (granted, _) = lock_exclusive-Granted s t rid first.0 in
      let same = granted.others u (λ e. d (sym e)) in
      (first.0, (lock_exclusive-IsFree (lock_exclusive s t rid).0 u rid (rw same n) first.1).0)

  upgrading-conflict :
      (queue_of s rid).upgrading ≡ true
      → refusal (s.txns u) ≡ none
      → lock_upgrade s u rid ≡ ok (set_state s u aborted, throws upgrade_conflict)
  unfolding lock_upgrade
  upgrading-conflict b c = ground arith

  resume_upgrade_aborted :
      (s.txns t).state ≡ aborted
      → ((queue_of (resume_upgrade s t rid).0 rid).upgrading ≡ (queue_of s rid).upgrading)
        × ((resume_upgrade s t rid).0.txns u ≡ s.txns u)
  unfolding resume_upgrade withdraw is_aborted
  resume_upgrade_aborted a = (
    ground (
      arith,
      queue_of-set_queue s rid
          (record (queue_of s rid) {
            request_queue = erase_request t (queue_of s rid).request_queue;
          })
          rid,
    ),
    ground arith,
  )

module _ (s : System) (t u rid : ℕ) where
  -- A transaction that is aborted while it waits for an upgrade leaves `upgrading_` set: the next
  -- upgrade on the RID by a transaction that passes the tests is refused with an upgrade conflict,
  -- and that transaction is aborted.
  pub resume_upgrade-conflict :
      (s.txns t).state ≡ aborted
      → (queue_of s rid).upgrading ≡ true
      → refusal (s.txns u) ≡ none
      → (lock_upgrade (resume_upgrade s t rid).0 u rid
          ≡ ok (set_state (resume_upgrade s t rid).0 u aborted, throws upgrade_conflict))
  resume_upgrade-conflict a b c =
      let left = resume_upgrade_aborted s t u rid a in
      upgrading-conflict (resume_upgrade s t rid).0 t u rid (left.0 ∙ b) (rw left.1 c)

module _ (s : System) (t rid : ℕ) where
  -- Unlock leaves the requests of the queue as they are, the released one and its `granted_` included.
  pub unlock-request_queue :
      (s' : System)
      → unlock s t rid ≡ ok s'
      → (queue_of s' rid).request_queue ≡ (queue_of s rid).request_queue
  unfolding unlock queue_of release
  unlock-request_queue s' h = elim (Option-cases (lookup rid s.lock_table)) [
    | inl e ↦ ground arith
    | inr (q, e) ↦ elim (Option-cases (mode_of t q.request_queue)) [
      | inl f ↦ ground arith
      | inr (shared, f) ↦ ground (arith, lookup-insert rid rid (release q shared) s.lock_table)
      | inr (exclusive, f) ↦
          ground (arith, lookup-insert rid rid (release q exclusive) s.lock_table)
    ]
  ]
