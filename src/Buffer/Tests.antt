-- ===== src/Buffer/Tests.antt =====
-- The buffer pool, its replacer and the disk manager on concrete inputs.
use lab.Common.{
  ℕ, ◌<◌, ◌≡◌, refl, Bool, true, false, Option, none, some, List, [], ◌∷◌, arith, Outcome, ok,
  deadlock, lookup, insert,
}
use lab.Storage.Disk.{DiskManager, page_at, page_limit, read_page, read_page-page_at}
use lab.Buffer.Lru.{LruReplacer}
use lab.Buffer.Lru
use lab.Buffer.Lru.Holds.{Holds, init-Holds}
use lab.Buffer.Lru.Contract.{lru, victims, pins, unpins, run, policy, run-policy}
use lab.Buffer.Pool.{BufferPool, init, fetch_page, unpin_page, fetch_page_impl, flush_all_pages}
use lab.Buffer.Pool.Inv.{Inv, view}
use lab.Buffer.Pool.Fetch.{Fetched, fetch_page_impl-Fetched}
use lab.Buffer.Pool.Unpin.{Honest}
use lab.Buffer.Pool.Flush.{write_frame}
use lab.Buffer.Pool.Defects.{flush_all_pages-deadlock}
use lab.Buffer.Pool.History.{
  Open, Step, keep, put, Steps, fetches, writes, start, step, replay, Step-Effects, Steps-replay,
}
use lab.Buffer.Pool.Init.{init-Open}

program : Unit {0}
unfolding fetch_page unpin_page init Lru.init Lru.unpin lookup insert read_page
program = tt

abbrev Pool : Type 0
Pool = BufferPool lru ℕ

-- Three allocated pages on the disk.
abbrev disk : DiskManager ℕ
disk = record { next_page_id = 3; num_writes = 0; file = 5 ∷ 6 ∷ 7 ∷ [] }

abbrev fresh : Pool
fresh = init lru 0 2 (Lru.init 2) disk

-- The pool of an answer.
abbrev answered : {A : Type 0} → Outcome (Pool × A) → Pool
answered (ok (p, a)) = p
answered _ = fresh

-- Page 1 is in frame 0, with one pin.
abbrev held : Pool
held = answered (fetch_page lru 0 1 fresh)

held_resident : fetch_page lru 0 1 fresh ≡ ok (held, some 0)
unfolding program
held_resident = refl

read_page-page_at_example : read_page 0 disk 2 0 ≡ ok (page_at 0 disk.file 2)
read_page-page_at_example = read_page-page_at 0 disk 2 (omega arith) (omega arith)

run-policy_example :
    (s : LruReplacer) × (run (Lru.init 2) (unpins 1 ∷ unpins 2 ∷ pins 1 ∷ victims ∷ [])
      ≡ ok (s, (policy [] (unpins 1 ∷ unpins 2 ∷ pins 1 ∷ victims ∷ [])).1))
    × Holds s (policy [] (unpins 1 ∷ unpins 2 ∷ pins 1 ∷ victims ∷ [])).0
run-policy_example = run-policy 2 (unpins 1 ∷ unpins 2 ∷ pins 1 ∷ victims ∷ [])

fresh-Open : Open lru 0 fresh
fresh-Open = init-Open lru 0 2 (Lru.init 2) disk (init-Holds 2) (omega arith) (omega arith)

-- Page 1 is fetched.
held-Step : Step lru 0 fresh keep held
unfolding program
held-Step = fetches 1 (some 0) (omega arith) held_resident

held-Open : Open lru 0 held
held-Open = (Step-Effects lru 0 held-Step fresh-Open).0

-- Page 1 is in frame 0, and nobody has pinned it.
abbrev unheld : Pool
unheld = answered (unpin_page lru 0 1 false held)

unheld_answer : unpin_page lru 0 1 false held ≡ ok (unheld, true)
unfolding program
unheld_answer = refl

held-Honest : (dirty : Bool) → Honest lru 0 held 1 dirty
unfolding program
held-Honest dirty f m one d = ground arith

-- It is unpinned.
unheld-Step : Step lru 0 held keep unheld
unheld-Step = Step.unpins 1 false true (held-Honest false) unheld_answer

unheld-Open : Open lru 0 unheld
unheld-Open = (Step-Effects lru 0 unheld-Step held-Open).0

known : 2 < held.disk.next_page_id
unfolding program
known = omega arith

room : fresh.disk.next_page_id < page_limit
unfolding program
room = omega arith

fetch_page_impl-Fetched_example :
    (q : Pool) × (m : Option ℕ) × (l : List ℕ) × (fetch_page_impl lru 0 2 held ≡ ok (q, m))
    × Inv lru 0 q l
    × Fetched lru 0 held q 2 m
fetch_page_impl-Fetched_example =
    fetch_page_impl-Fetched lru 0 held held-Open.frames held-Open.inv 2 known

held_table : lookup 1 held.page_table ≡ some 0
unfolding program
held_table = refl

unheld_table : lookup 1 unheld.page_table ≡ some 0
unfolding program
unheld_table = refl

missing : lookup 2 unheld.page_table ≡ none
unfolding program
missing = refl

no_pin : (unheld.pages 0).pin_count ≡ 0
unfolding program
no_pin = refl

one_pin : 0 < (held.pages 0).pin_count
unfolding program
one_pin = omega arith

flush_all_pages-deadlock_example : flush_all_pages lru 0 held ≡ deadlock
flush_all_pages-deadlock_example = flush_all_pages-deadlock lru 0 held 1 0 held_table

-- Page 1 is fetched and then filled with 9.
history : Steps lru 0 fresh (put 1 9 ∷ keep ∷ []) (write_frame lru 0 held 0 9)
history = step (step start held-Step) (writes 1 0 9 held_table one_pin)

Steps-replay_example :
    Open lru 0 (write_frame lru 0 held 0 9)
    × ((j : ℕ)
        → view lru 0 (write_frame lru 0 held 0 9) j
          ≡ replay lru 0 (view lru 0 fresh) (put 1 9 ∷ keep ∷ []) j)
Steps-replay_example = Steps-replay lru 0 history fresh-Open
