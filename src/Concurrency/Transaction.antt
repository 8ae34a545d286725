-- ===== src/Concurrency/Transaction.antt =====
-- src/include/concurrency/transaction.h: the state that the lock manager reads and writes. A RID is a
-- number, a set of RIDs is a list.
use lab.Common.{ℕ, Bool, List, [], ◌∷◌, contains, if◌then◌else◌}

pub data TransactionState : Type 0 where
  growing shrinking committed aborted : TransactionState

pub data IsolationLevel : Type 0 where
  read_uncommitted repeatable_read read_committed : IsolationLevel

pub data AbortReason : Type 0 where
  lock_on_shrinking unlock_on_shrinking upgrade_conflict deadlocked lockshared_on_read_uncommitted :
      AbortReason

pub record Transaction : Type 0 where
  pub state : TransactionState
  pub isolation_level : IsolationLevel
  pub shared_lock_set : List ℕ
  pub exclusive_lock_set : List ℕ

-- `set->emplace(rid)`
unfoldable pub emplace : ℕ → List ℕ → List ℕ
emplace rid rids = if contains rid rids then rids else rid ∷ rids

-- The constructor.
unfoldable pub start : IsolationLevel → Transaction
start level = record {
  state = growing;
  isolation_level = level;
  shared_lock_set = [];
  exclusive_lock_set = [];
}

unfoldable pub is_shared_locked : Transaction → ℕ → Bool
is_shared_locked txn rid = contains rid txn.shared_lock_set

unfoldable pub is_exclusive_locked : Transaction → ℕ → Bool
is_exclusive_locked txn rid = contains rid txn.exclusive_lock_set
