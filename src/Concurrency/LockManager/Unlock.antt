-- ===== src/Concurrency/LockManager/Unlock.antt =====
-- Where Unlock finds a request.
use lab.Common.{
  ℕ, ◌≡◌, refl, Bool, true, false, none, some, List, [], ◌∷◌, ok, undefined, lookup, remove, ◌==◌,
  ◌⊎◌, inl, inr, Bool-cases, Option-cases,
}
use lab.Concurrency.LockManager.{System, set_txn, set_queue, after_unlock, unlock}
use lab.Concurrency.LockQueue.{
  LockMode, LockRequest, LockRequestQueue, has_request, mode_of, release,
}

-- Whether the transaction has a request in the queue of the RID.
unfoldable pub has_lock_request : System → ℕ → ℕ → Bool
has_lock_request s t rid = elim (lookup rid s.lock_table) [
  | none ↦ false
  | some q ↦ has_request t q.request_queue
]

abbrev unlocked : System → ℕ → ℕ → LockRequestQueue → LockMode → System
unlocked s t rid q mode =
    let txn = s.txns t in
    set_queue
      (set_txn s t (record txn {
        shared_lock_set = remove rid txn.shared_lock_set;
        exclusive_lock_set = remove rid txn.exclusive_lock_set;
        state = after_unlock txn mode;
      }))
      rid (release q mode)

has_request-mode_of :
    (t : ℕ) (rs : List LockRequest)
    → ((has_request t rs ≡ false) × (mode_of t rs ≡ none))
      ⊎ ((mode : LockMode) × (has_request t rs ≡ true) × (mode_of t rs ≡ some mode))
unfolding has_request mode_of
has_request-mode_of t [] = inl (refl, refl)
has_request-mode_of t (r ∷ rs) = elim (Bool-cases (r.txn_id == t)) [
  | inl same ↦ inr (r.lock_mode, rw same refl, rw same refl)
  | inr other ↦ rw other (has_request-mode_of t rs)
]

unlock_ok :
    (s : System) (t rid : ℕ) (q : LockRequestQueue) (mode : LockMode)
    → lookup rid s.lock_table ≡ some q
    → mode_of t q.request_queue ≡ some mode
    → unlock s t rid ≡ ok (unlocked s t rid q mode)
unfolding unlock
unlock_ok s t rid q mode e f = rw (unlock, e, f) refl

-- Unlock is undefined exactly where the transaction has no request.
pub unlock-cases :
    (s : System) (t : ℕ) (rid : ℕ)
    → ((has_lock_request s t rid ≡ false) × (unlock s t rid ≡ undefined))
      ⊎ ((s' : System) × (has_lock_request s t rid ≡ true) × (unlock s t rid ≡ ok s'))
unfolding has_lock_request unlock
unlock-cases s t rid = elim (Option-cases (lookup rid s.lock_table)) [
  | inl e ↦ inl (rw (has_lock_request, e) refl, rw (unlock, e) refl)
  | inr (q, e) ↦ elim (has_request-mode_of t q.request_queue) [
    | inl (missing, f) ↦ inl (rw (has_lock_request, e) missing, rw (unlock, e, f) refl)
    | inr (mode, present, f) ↦
        inr
          (unlocked s t rid q mode, rw (has_lock_request, e) present, unlock_ok s t rid q mode e f)
  ]
]
