-- ===== src/Concurrency/Tests.antt =====
-- The lock manager on concrete inputs.
use lab.Common.{ℕ, some, ◌≡◌, refl, true, false, none, [], arith, Outcome, ok, lookup, insert}
use lab.Concurrency.Transaction.{aborted, repeatable_read, start}
use lab.Concurrency.LockManager.{
  System, Reply, grants, queue_of, set_state, refusal, lock_shared, lock_exclusive, lock_upgrade,
  resume_upgrade, unlock,
}
use lab.Concurrency.LockQueue.{is_positive}
use lab.Common.{Bool, contains, ◌∷◌, ◌<◌}
use lab.Concurrency.WaitsFor.{Graph, next_nodes}
use lab.Concurrency.WaitsFor.Search.{Search, dfs}
use lab.Concurrency.WaitsFor.Cycles.{Ready, Answer, room, dfs-Answer}
use lab.Concurrency.LockManager.Guard.{MayLock, Granted, lock_exclusive-Granted}
use lab.Concurrency.LockManager.Safety.{
  Moves, Step, Steps, next, done, shares, unlocks, Past, Step-Moves,
}
use lab.Concurrency.LockManager.Defects.{IsFree, lock_exclusive-twice}

program : Unit {0}
unfolding start lock_shared lock_exclusive lock_upgrade resume_upgrade unlock queue_of lookup insert
program = tt

-- No locks, and every transaction is new.
abbrev initial : System
initial = record { lock_table = []; txns = λ _. start repeatable_read }

new-MayLock : MayLock (start repeatable_read)
unfolding program
new-MayLock = record {
  not_shrinking = λ e. ground arith;
  not_aborted = λ e. ground arith;
  not_read_uncommitted = λ e. ground arith;
}

shared_grants : (lock_shared initial 1 7).1 ≡ grants
unfolding program
shared_grants = refl

exclusive_grants : (lock_exclusive initial 1 7).1 ≡ grants
unfolding program
exclusive_grants = refl

lock_exclusive-Granted_example :
    Granted initial (lock_exclusive initial 1 7).0 1 7 (λ txn. txn.exclusive_lock_set)
    × (is_positive (queue_of initial 7).sharelock_count ≡ false)
lock_exclusive-Granted_example = lock_exclusive-Granted initial 1 7 exclusive_grants

-- Transaction 1 has a shared lock.
abbrev locked : System
locked = (lock_shared initial 1 7).0

-- The state of an answer.
abbrev answered : Outcome System → System
answered (ok s) = s
answered _ = initial

-- It has given the lock back.
abbrev unlocked : System
unlocked = answered (unlock locked 1 7)

unlocked_answer : unlock locked 1 7 ≡ ok unlocked
unfolding program
unlocked_answer = refl

unlocked-Step : Step locked unlocked
unlocked-Step = unlocks 1 7 unlocked_answer

Step-Moves_example : Moves (locked.txns 1).state (unlocked.txns 1).state
Step-Moves_example = Step-Moves unlocked-Step 1

later : Steps unlocked (lock_shared unlocked 1 8).0
later = next (shares 1 8) done

unlocked-Past : Past (unlocked.txns 1).state
unfolding program
unlocked-Past = λ e. ground arith

initial-IsFree : IsFree (queue_of initial 7)
unfolding program
initial-IsFree = record { no_writer = refl; no_reader = refl }

lock_exclusive-twice_example :
    ((lock_exclusive initial 1 7).1 ≡ grants)
    × ((lock_exclusive (lock_exclusive initial 1 7).0 2 7).1 ≡ grants)
lock_exclusive-twice_example =
    lock_exclusive-twice initial 1 2 7 (λ e. absurd (omega arith)) new-MayLock new-MayLock
      initial-IsFree

-- Transactions 1 and 2 have shared locks; transaction 1 waits for an upgrade and is aborted.
abbrev both : System
both = (lock_shared locked 2 7).0

abbrev upgraded : Outcome (System × Reply) → System
upgraded (ok (s, r)) = s
upgraded _ = initial

abbrev waiting : System
waiting = set_state (upgraded (lock_upgrade both 1 7)) 1 aborted

waiting_state : (waiting.txns 1).state ≡ aborted
unfolding program
waiting_state = refl

waiting_upgrading : (queue_of waiting 7).upgrading ≡ true
unfolding program
waiting_upgrading = refl

second_passes : refusal (waiting.txns 2) ≡ none
unfolding program refusal
second_passes = refl

-- Transactions 1 and 2 wait for each other.
abbrev deadlocked : Graph
deadlocked = (1, 2 ∷ []) ∷ (2, 1 ∷ []) ∷ []

deadlocked_closed :
    (a b : ℕ) → contains b (next_nodes deadlocked a) ≡ true → contains b (1 ∷ 2 ∷ []) ≡ true
unfolding next_nodes lookup contains
deadlocked_closed a b h = ground arith

abbrev begin : Search
begin = record { waits_for = deadlocked; safe_set = []; active_set = [] }

begin-Ready : Ready deadlocked (1 ∷ 2 ∷ []) deadlocked_closed begin 1
unfolding contains
begin-Ready = record {
  same_edges = λ a b. refl;
  wait = λ a h. ground arith;
  inactive = refl;
  known = refl;
}

begin_room : room (1 ∷ 2 ∷ []) [] < 3
unfolding room contains
begin_room = omega arith

dfs-Answer_example :
    (s : Search) × (found : Bool) × (dfs 3 begin 1 ≡ some (s, found))
    × Answer deadlocked (1 ∷ 2 ∷ []) deadlocked_closed begin s found
dfs-Answer_example =
    dfs-Answer deadlocked (1 ∷ 2 ∷ []) deadlocked_closed 3 begin 1 begin-Ready begin_room

not_itself : contains 1 (next_nodes deadlocked 1) ≡ false
unfolding next_nodes lookup contains
not_itself = refl
