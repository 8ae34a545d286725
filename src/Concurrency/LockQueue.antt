-- ===== src/Concurrency/LockQueue.antt =====
-- src/concurrency/lock_manager.cpp and src/include/concurrency/lock_manager.h: the queue of lock requests
-- of a RID.
use lab.Common.{
  ℕ, zero, suc, Bool, true, false, ◌||◌, Option, none, some, List, [], ◌∷◌, ◌==◌, if◌then◌else◌,
}

pub data LockMode : Type 0 where
  shared exclusive : LockMode

pub record LockRequest : Type 0 where
  pub txn_id : ℕ
  pub lock_mode : LockMode
  pub granted : Bool

-- `int sharelock_count_`; `below n` is -(n + 1).
pub data Count : Type 0 where
  at : ℕ → Count
  below : ℕ → Count

unfoldable pub increment : Count → Count
increment (at n) = at (suc n)
increment (below zero) = at 0
increment (below (suc n)) = below n

unfoldable pub decrement : Count → Count
decrement (at zero) = below 0
decrement (at (suc n)) = at n
decrement (below n) = below (suc n)

unfoldable pub is_positive : Count → Bool
is_positive (at zero) = false
is_positive (at (suc n)) = true
is_positive (below n) = false

unfoldable pub is_zero : Count → Bool
is_zero (at zero) = true
is_zero (at (suc n)) = false
is_zero (below n) = false

pub record LockRequestQueue : Type 0 where
  pub request_queue : List LockRequest
  pub upgrading : Bool
  pub sharelock_count : Count
  pub is_writing : Bool

abbrev pub empty_queue : LockRequestQueue
empty_queue = record {
  request_queue = [];
  upgrading = false;
  sharelock_count = at 0;
  is_writing = false;
}

-- `GetIterator`: whether the transaction has a request.
unfoldable pub has_request : ℕ → List LockRequest → Bool
has_request t [] = false
has_request t (r ∷ rs) = (r.txn_id == t) || has_request t rs

-- `request_queue_.erase(GetIterator(...))`
unfoldable pub erase_request : ℕ → List LockRequest → List LockRequest
erase_request t [] = []
erase_request t (r ∷ rs) = if r.txn_id == t then rs else r ∷ erase_request t rs

-- A change at `GetIterator(...)`.
unfoldable pub change_request :
    ℕ → (LockRequest → LockRequest) → List LockRequest → List LockRequest
change_request t f [] = []
change_request t f (r ∷ rs) = if r.txn_id == t then f r ∷ rs else r ∷ change_request t f rs

-- `GetIterator(...)->lock_mode_`
unfoldable pub mode_of : ℕ → List LockRequest → Option LockMode
mode_of t [] = none
mode_of t (r ∷ rs) = if r.txn_id == t then some r.lock_mode else mode_of t rs

abbrev pub grant : LockRequest → LockRequest
grant r = record r { granted = true }

-- The test before the wait of LockExclusive and of LockUpgrade.
unfoldable pub is_held : LockRequestQueue → Bool
unfolding is_positive
is_held q = q.is_writing || is_positive q.sharelock_count

abbrev pub to_exclusive : LockRequest → LockRequest
to_exclusive r = record r { lock_mode = exclusive; granted = false }

-- The queue after a lock of the mode is released.
unfoldable pub release : LockRequestQueue → LockMode → LockRequestQueue
unfolding decrement
release q shared = record q { sharelock_count = decrement q.sharelock_count }
release q exclusive = record q { is_writing = false }
