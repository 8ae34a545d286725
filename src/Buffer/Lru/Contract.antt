-- ===== src/Buffer/Lru/Contract.antt =====
-- LRUReplacer as a Replacer, and its histories.
use lab.Common.{
  ℕ, ◌≡◌, refl, List, [], ◌∷◌, Option, none, Outcome, ok, ◌>>=◌, last_of, contains-last_of,
  Option-cases, inl, inr,
}
use lab.Buffer.Replacer.{Replacer, Chosen, after_victim, after_pin, after_unpin}
use lab.Buffer.Lru.{LruReplacer, init, victim, pin, unpin, size}
use lab.Buffer.Lru.Holds.{Holds, init-Holds}
use lab.Buffer.Lru.Refines.{victim-refines, pin-refines, unpin-refines, size-refines}

last_of-Chosen : (l : List ℕ) → Chosen l (last_of l)
unfolding last_of
last_of-Chosen [] = refl
last_of-Chosen (x ∷ xs) = elim (Option-cases (last_of (x ∷ xs))) [
  | inl e ↦ absurd (nonempty x xs e)
  | inr (f, e) ↦ rw e (contains-last_of (x ∷ xs) f e)
]
  where
    nonempty : (y : ℕ) (ys : List ℕ) → last_of (y ∷ ys) ≡ none → ⊥
    nonempty y [] e = cc
    nonempty y (z ∷ zs) e = nonempty z zs e

pub victim_law :
    (s : LruReplacer) (l : List ℕ)
    → Holds s l
    → (s' : LruReplacer) × (r : Option ℕ) × (victim s ≡ ok (s', r))
      × Chosen l r
      × Holds s' (after_victim r l)
victim_law s l h = let (s', e, k) = victim-refines s l h in (s', last_of l, e, last_of-Chosen l, k)

-- The replacer that the buffer pool's constructor makes.
abbrev pub lru : Replacer
lru = record {
  State = LruReplacer;
  Holds = Holds;
  victim = victim;
  pin = pin;
  unpin = unpin;
  size = size;
  victim_lem = victim_law;
  pin_lem = pin-refines;
  unpin_lem = unpin-refines;
  size_lem = size-refines;
}

-- Calls of the replacer, with what a call returns.
pub data Call : Type 0 where
  victims : Call
  pins unpins : ℕ → Call

unfoldable pub run : LruReplacer → List Call → Outcome (LruReplacer × List (Option ℕ))
run s [] = ok (s, [])
run s (victims ∷ calls) = do (s, r) ← victim s; (s, rs) ← run s calls; ok (s, r ∷ rs)
run s (pins f ∷ calls) = do s ← pin s f; run s calls
run s (unpins f ∷ calls) = do s ← unpin s f; run s calls

-- The policy: a queue of frames, the most recently unpinned first.
unfoldable pub policy : List ℕ → List Call → List ℕ × List (Option ℕ)
policy l [] = (l, [])
policy l (victims ∷ calls) =
    let (l', rs) = policy (after_victim (last_of l) l) calls in (l', last_of l ∷ rs)
policy l (pins f ∷ calls) = policy (after_pin f l) calls
policy l (unpins f ∷ calls) = policy (after_unpin f l) calls

run-Holds :
    (calls : List Call) (s : LruReplacer) (l : List ℕ)
    → Holds s l
    → (s' : LruReplacer) × (run s calls ≡ ok (s', (policy l calls).1)) × Holds s' (policy l calls).0
unfolding run policy
run-Holds [] s l h = (s, refl, h)
run-Holds (victims ∷ calls) s l h =
    let (s1, e1, h1) = victim-refines s l h in
    let (s2, e2, h2) = run-Holds calls s1 _ h1 in (s2, rw (e1, e2), h2)
run-Holds (pins f ∷ calls) s l h =
    let (s1, e1, h1) = pin-refines s l f h in
    let (s2, e2, h2) = run-Holds calls s1 _ h1 in (s2, rw (e1, e2), h2)
run-Holds (unpins f ∷ calls) s l h =
    let (s1, e1, h1) = unpin-refines s l f h in
    let (s2, e2, h2) = run-Holds calls s1 _ h1 in (s2, rw (e1, e2), h2)

-- Every history of calls on a new LRUReplacer runs with no access to a node that is gone, returns
-- the victims of the policy, and ends in a state whose linked list and table hold the policy's
-- queue.
pub run-policy :
    (n : ℕ) (calls : List Call)
    → (s : LruReplacer) × (run (init n) calls ≡ ok (s, (policy [] calls).1))
      × Holds s (policy [] calls).0
run-policy n calls = run-Holds calls (init n) [] (init-Holds n)
