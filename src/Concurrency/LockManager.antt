-- ===== src/Concurrency/LockManager.antt =====
-- src/concurrency/lock_manager.cpp: LockShared, LockExclusive, LockUpgrade and Unlock. A lock method
-- holds `latch_` but for `cv_.wait(lock, pred)`, so it is two steps: the request, which runs up to
-- the wait, and the resumption, which runs from the moment at which the predicate holds. A request
-- whose predicate already holds goes on at once. Transactions are known by their ids.
pub mod Guard
pub mod Safety
pub mod Unlock
pub mod Defects
use lab.Common.{
  ℕ, zero, suc, ◌+◌, ◌-◌, Bool, true, false, not, ◌&&◌, ◌||◌, Option, none, some, List, [], ◌∷◌,
  ◌++◌, Outcome, ok, undefined, ◌>>=◌, ◌==◌, if◌then◌else◌, update, lookup, insert, remove,
}
use lab.Concurrency.Transaction.{
  Transaction, TransactionState, growing, shrinking, committed, aborted, IsolationLevel,
  read_uncommitted, repeatable_read, read_committed, AbortReason, lock_on_shrinking,
  upgrade_conflict, deadlocked, lockshared_on_read_uncommitted, emplace,
}
use lab.Concurrency.LockQueue.{
  LockMode, shared, exclusive, LockRequest, Count, at, below, increment, decrement, is_positive,
  is_zero, LockRequestQueue, empty_queue, has_request, erase_request, change_request, mode_of,
  grant, to_exclusive, is_held, release,
}

-- The lock table, and the transactions by their ids.
pub record System : Type 0 where
  pub lock_table : List (ℕ × LockRequestQueue)
  pub txns : ℕ → Transaction

-- What a lock method comes to: the lock is granted, an exception is thrown, or it waits.
pub data Reply : Type 0 where
  grants : Reply
  throws : AbortReason → Reply
  waits : Reply

-- `lock_table_.find(rid)->second`, after an empty queue is entered where there was none.
unfoldable pub queue_of : System → ℕ → LockRequestQueue
queue_of s rid = elim (lookup rid s.lock_table) [ none ↦ empty_queue | some q ↦ q ]

abbrev pub set_queue : System → ℕ → LockRequestQueue → System
set_queue s rid q = record s { lock_table = insert rid q s.lock_table }

abbrev pub set_txn : System → ℕ → Transaction → System
set_txn s t txn = record s { txns = update s.txns t txn }

abbrev pub set_state : System → ℕ → TransactionState → System
set_state s t state = set_txn s t (record (s.txns t) { state = state })

unfoldable pub is_aborted : Transaction → Bool
is_aborted txn = elim txn.state [ aborted ↦ true | _ ↦ false ]

-- The tests at the head of each lock method: the exception to throw, if any.
unfoldable pub refusal : Transaction → Option AbortReason
refusal txn = elim txn.state [
  | shrinking ↦ some lock_on_shrinking
  | _ ↦ elim txn.isolation_level [
    | read_uncommitted ↦ some lockshared_on_read_uncommitted
    | _ ↦ none
  ]
]

-- The wait predicates.
unfoldable pub shared_ready : System → ℕ → ℕ → Bool
unfolding is_aborted
shared_ready s t rid = is_aborted (s.txns t) || not (queue_of s rid).is_writing

unfoldable pub exclusive_ready : System → ℕ → ℕ → Bool
unfolding is_aborted is_zero
exclusive_ready s t rid =
    let q = queue_of s rid in
    is_aborted (s.txns t) || (not q.is_writing && is_zero q.sharelock_count)

-- A transaction that is aborted while it waits withdraws its request.
unfoldable pub withdraw : System → ℕ → ℕ → System × Reply
unfolding erase_request
withdraw s t rid =
    let q = queue_of s rid in
    (
      set_queue s rid (record q { request_queue = erase_request t q.request_queue }),
      throws deadlocked,
    )

-- LockShared from the wait on.
unfoldable pub resume_shared : System → ℕ → ℕ → System × Reply
unfolding withdraw is_aborted change_request increment emplace
resume_shared s t rid =
    let txn = s.txns t in
    let q = queue_of s rid in
    if is_aborted txn then withdraw s t rid else (
      set_queue (set_txn s t (record txn { shared_lock_set = emplace rid txn.shared_lock_set })) rid
          (record q {
            request_queue = change_request t grant q.request_queue;
            sharelock_count = increment q.sharelock_count;
          }),
      grants,
    )

-- `emplace_back(txn_id, mode)`
unfoldable pub enqueue : System → ℕ → ℕ → LockMode → System
enqueue s t rid mode =
    let q = queue_of s rid in
    set_queue s rid (record q {
      request_queue =
          q.request_queue ++ (record { txn_id = t; lock_mode = mode; granted = false }) ∷ [];
    })

unfoldable pub lock_shared : System → ℕ → ℕ → System × Reply
unfolding refusal enqueue shared_ready resume_shared
lock_shared s t rid = elim (refusal (s.txns t)) [
  | some reason ↦ (set_state s t aborted, throws reason)
  | none ↦
      let queued = enqueue s t rid shared in
      if (queue_of queued rid).is_writing && not (shared_ready queued t rid)
      then (queued, waits)
      else resume_shared queued t rid
]

-- LockExclusive from the wait on.
unfoldable pub resume_exclusive : System → ℕ → ℕ → System × Reply
unfolding withdraw is_aborted change_request emplace
resume_exclusive s t rid =
    let txn = s.txns t in
    let q = queue_of s rid in
    if is_aborted txn then withdraw s t rid else (
      set_queue
          (set_txn s t (record txn { exclusive_lock_set = emplace rid txn.exclusive_lock_set })) rid
          (record q { request_queue = change_request t grant q.request_queue }),
      grants,
    )

unfoldable pub lock_exclusive : System → ℕ → ℕ → System × Reply
unfolding refusal enqueue exclusive_ready resume_exclusive is_held
lock_exclusive s t rid = elim (refusal (s.txns t)) [
  | some reason ↦ (set_state s t aborted, throws reason)
  | none ↦
      let queued = enqueue s t rid exclusive in
      if is_held (queue_of queued rid) && not (exclusive_ready queued t rid)
      then (queued, waits)
      else resume_exclusive queued t rid
]

-- LockUpgrade from the wait on.
unfoldable pub resume_upgrade : System → ℕ → ℕ → System × Reply
unfolding withdraw is_aborted change_request emplace
resume_upgrade s t rid =
    let txn = s.txns t in
    let q = queue_of s rid in
    if is_aborted txn then withdraw s t rid else (
      set_queue
          (set_txn s t (record txn { exclusive_lock_set = emplace rid txn.exclusive_lock_set })) rid
          (record q {
            request_queue = change_request t grant q.request_queue;
            upgrading = false;
            is_writing = true;
          }),
      grants,
    )

-- LockUpgrade between its tests and the wait: the shared lock is given up.
unfoldable pub give_up_shared : System → ℕ → ℕ → System
unfolding change_request decrement
give_up_shared s t rid =
    let txn = s.txns t in
    let q = queue_of s rid in
    set_queue (set_txn s t (record txn { shared_lock_set = remove rid txn.shared_lock_set })) rid
      (record q {
        sharelock_count = decrement q.sharelock_count;
        request_queue = change_request t to_exclusive q.request_queue;
      })

abbrev pub mark_upgrading : System → ℕ → System
mark_upgrading s rid = set_queue s rid (record (queue_of s rid) { upgrading = true })

-- A transaction that has no request makes it write through the end iterator.
unfoldable pub lock_upgrade : System → ℕ → ℕ → Outcome (System × Reply)
unfolding refusal has_request give_up_shared exclusive_ready resume_upgrade is_held
lock_upgrade s t rid = elim (refusal (s.txns t)) [
  | some reason ↦ ok (set_state s t aborted, throws reason)
  | none ↦
      if (queue_of s rid).upgrading
      then ok (set_state s t aborted, throws upgrade_conflict)
      else (if not (has_request t (queue_of s rid).request_queue)
          then undefined
          else (let given = give_up_shared s t rid in
              let marked = mark_upgrading given rid in
              if is_held (queue_of given rid)
              then (if exclusive_ready marked t rid
                  then ok (resume_upgrade marked t rid)
                  else ok (marked, waits))
              else ok (resume_upgrade given t rid)))
]

-- The state of a transaction after it unlocks a lock of the mode.
unfoldable pub after_unlock : Transaction → LockMode → TransactionState
after_unlock txn mode = elim txn.state [
  | growing ↦ elim mode [
    | shared ↦ elim txn.isolation_level [ read_committed ↦ growing | _ ↦ shrinking ]
    | exclusive ↦ shrinking
  ]
  | state ↦ state
]

-- `Unlock`; a missing queue or request is read through an end iterator.
unfoldable pub unlock : System → ℕ → ℕ → Outcome System
unfolding mode_of after_unlock release
unlock s t rid = elim (lookup rid s.lock_table) [
  | none ↦ undefined
  | some q ↦ elim (mode_of t q.request_queue) [
    | none ↦ undefined
    | some mode ↦
        let txn = s.txns t in
        ok (
          set_queue
            (set_txn s t (record txn {
              shared_lock_set = remove rid txn.shared_lock_set;
              exclusive_lock_set = remove rid txn.exclusive_lock_set;
              state = after_unlock txn mode;
            }))
            rid (release q mode))
  ]
]
