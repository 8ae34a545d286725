-- ===== src/Execution/Limit.antt =====
-- LimitExecutor, src/execution/limit_executor.cpp: the first rows of its child. `limit_`, `offset_` and
-- `idx` are of size_t, 64 bits.
use lab.Common.{
  ℕ, zero, suc, ◌+◌, ◌-◌, ◌%◌, ◌^◌, ◌<◌, ◌≤◌, ◌≡◌, refl, true, false, ltb, if◌then◌else◌, Option,
  none, some, List, [], ◌∷◌, length, Outcome, ok, out_of_fuel, ◌>>=◌, arith,
}
use lab.Execution.Executor.{Executor, Yields, finish, answer, execute, execute-Yields}

pub record LimitState (S : Type 0) : Type 0 where
  pub child : S
  pub idx : ℕ

abbrev pub initial : {S : Type 0} → S → LimitState S
initial s = record { child = s; idx = 0 }

module _ {S T : Type 0} (child_executor : Executor S T) (limit offset : ℕ) where
  unfoldable pub init : LimitState S → Outcome (LimitState S)
  init s = child_executor.init s.child >>= λ c. ok (record { child = c; idx = 0 })

  -- `while (idx < offset_)`, which discards a row of the child and does not count it.
  unfoldable pub skip : ℕ → LimitState S → Outcome (LimitState S)
  skip zero s = out_of_fuel
  skip (suc n) s =
      if ltb s.idx offset
      then (child_executor.next s.child >>= λ r. skip n (record { child = r.1; idx = s.idx }))
      else ok s

  unfoldable pub next : ℕ → LimitState S → Outcome (Option T × LimitState S)
  next fuel s = skip fuel s >>= λ s.
      let counted = (s.idx + 1) % 2 ^ 64 in
      if ltb ((s.idx + 2 ^ 64 - offset) % 2 ^ 64) limit
      then (child_executor.next s.child >>= λ r. ok (r.0, record { child = r.1; idx = counted }))
      else ok (none, record { child = s.child; idx = counted })

  unfoldable pub executor : ℕ → Executor (LimitState S) T
  executor fuel = record { init = init; next = next fuel }

unfoldable pub take {ℓ} : {A : Type ℓ} → ℕ → List A → List A
take zero xs = []
take (suc n) [] = []
take (suc n) (x ∷ xs) = x ∷ take n xs

ltb-true : (a b : ℕ) → a < b → ltb a b ≡ true
ltb-true a b h = ground arith

module _ {S T : Type 0} (child_executor : Executor S T) (limit fuel : ℕ) where
  skip_none : (s : LimitState S) → skip child_executor limit 0 (suc fuel) s ≡ ok s
  unfolding skip
  skip_none s = ground arith

  test_before : (i : ℕ) → i < limit → limit < 2 ^ 64 → ltb ((i + 2 ^ 64 - 0) % 2 ^ 64) limit ≡ true
  test_before i h l = ground arith

  test_after : (i : ℕ) → limit ≤ i → i < 2 ^ 64 → ltb ((i + 2 ^ 64 - 0) % 2 ^ 64) limit ≡ false
  test_after i h l = ground arith

  counted : (i : ℕ) → i < limit → limit < 2 ^ 64 → (i + 1) % 2 ^ 64 ≡ i + 1
  counted i h l = omega arith

  -- Before the limit Next passes on what the child answers, and at the limit it answers the end.
  next_before :
      (c c' : S) (i : ℕ) (o : Option T)
      → child_executor.next c ≡ ok (o, c')
      → i < limit
      → limit < 2 ^ 64
      → next child_executor limit 0 (suc fuel) (record { child = c; idx = i })
        ≡ ok (o, record { child = c'; idx = i + 1 })
  unfolding next
  next_before c c' i o step h l =
      rw (skip_none (record { child = c; idx = i }), test_before i h l, step, counted i h l) refl

  next_after :
      (c : S) (i : ℕ)
      → limit ≤ i
      → i < 2 ^ 64
      → next child_executor limit 0 (suc fuel) (record { child = c; idx = i })
        ≡ ok (none, record { child = c; idx = (i + 1) % 2 ^ 64 })
  unfolding next
  next_after c i h l = rw (skip_none (record { child = c; idx = i }), test_after i h l) refl

  -- With i rows counted, the executor yields the next ones up to the limit.
  rows_left :
      {c c' : S} {ts : List T} (i k : ℕ)
      → Yields child_executor c ts c'
      → i + k ≡ limit
      → limit < 2 ^ 64
      → (s' : LimitState S) × Yields
          (executor child_executor limit 0 (suc fuel))
          (record { child = c; idx = i })
          (take k ts)
          s'
  unfolding executor take
  rows_left {c = c} i zero y h l = (_, finish (next_after c i (omega arith) (omega arith)))
  rows_left {c = c} i (suc k) (finish step) h l =
      (_, finish (next_before c _ i none step (omega arith) l))
  rows_left {c = c} {c' = c'} i (suc k) (answer {s' = d} {t = t} {ts = ts} step y) h l =
      let rest = rows_left {c = d} {ts = ts} (i + 1) k y (omega arith) l in
      (rest.0, answer (next_before c _ i (some t) step (omega arith) l) rest.1)

  -- Without an offset the executor yields the first rows of its child.
  pub next-take :
      {c c' : S} {ts : List T}
      → Yields child_executor c ts c'
      → limit < 2 ^ 64
      → (s' : LimitState S) × Yields
          (executor child_executor limit 0 (suc fuel))
          (initial c)
          (take limit ts)
          s'
  next-take y l = rows_left 0 limit y (omega arith) l

init_child :
    {S T : Type 0} (child_executor : Executor S T) (limit offset : ℕ) (s0 c : S)
    → child_executor.init s0 ≡ ok c
    → init child_executor limit offset (initial s0) ≡ ok (initial c)
unfolding init
init_child child_executor limit offset s0 c i = rw i refl

length-take : {A : Type 0} (n : ℕ) (xs : List A) → length (take n xs) ≤ length xs
unfolding take
length-take zero xs = omega arith
length-take (suc n) [] = omega arith
length-take (suc n) (x ∷ xs) = omega (arith, length-take n xs)

skip_stuck :
    {S T : Type 0} (child_executor : Executor S T) (limit offset : ℕ)
    → ((c : S) → (r : Option T × S) × (child_executor.next c ≡ ok r))
    → (fuel : ℕ) (s : LimitState S) → s.idx < offset
    → skip child_executor limit offset fuel s ≡ out_of_fuel
unfolding skip
skip_stuck child_executor limit offset total zero s h = refl
skip_stuck child_executor limit offset total (suc n) s h =
    let r = total s.child in
    rw (ltb-true s.idx offset h, r.1)
      (skip_stuck child_executor limit offset total n (record { child = r.0.1; idx = s.idx }) h)

-- A query with a limit below 2^64 and no offset answers the first rows of its child, as many as the
-- limit, when the child starts and yields its rows one by one.
pub execute-take :
    {S T : Type 0} (child_executor : Executor S T) (limit fuel n : ℕ) {s0 c c' : S} {ts : List T}
    → child_executor.init s0 ≡ ok c
    → Yields child_executor c ts c'
    → limit < 2 ^ 64
    → length ts < n
    → execute (executor child_executor limit 0 (suc fuel)) n (initial s0) ≡ ok (take limit ts)
unfolding executor
execute-take child_executor limit fuel n {s0 = s0} {c = c} {ts = ts} i y l b =
    let rows = next-take child_executor limit fuel y l in
    execute-Yields (executor child_executor limit 0 (suc fuel)) n
      (init_child child_executor limit 0 s0 c i) rows.1 (omega (arith, length-take limit ts))

-- Next of a limit with an offset that is not reached yet, over a child that always answers, does not
-- end within any fuel.
pub next-stuck :
    {S T : Type 0} (child_executor : Executor S T) (limit offset : ℕ)
    → ((c : S) → (r : Option T × S) × (child_executor.next c ≡ ok r))
    → (fuel : ℕ) (s : LimitState S) → s.idx < offset
    → next child_executor limit offset fuel s ≡ out_of_fuel
unfolding next
next-stuck child_executor limit offset total fuel s h =
    rw (skip_stuck child_executor limit offset total fuel s h) refl
