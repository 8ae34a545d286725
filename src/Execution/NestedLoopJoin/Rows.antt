-- ===== src/Execution/NestedLoopJoin/Rows.antt =====
-- The rows that NestedLoopJoinExecutor::Next answers, call by call, until the end.
use lab.Common.{
  ℕ, zero, suc, ◌+◌, ◌<◌, ◌≤◌, ◌≡◌, refl, ap, ◌∙◌, Bool, Option, none, some, List, [], ◌∷◌, length,
  ok, arith, Bool-cases, inl, inr,
}
use lab.Execution.Executor.{Executor, Yields, finish, answer, execute, execute-Yields}
use lab.Execution.NestedLoopJoin.{
  JoinState, matches, init, seek, next, executor, drop_to_match, joined,
}

-- At most one row for each row of the left child.
pub length-joined :
    {L R T : Type 0} (predicate : Option (L → R → Bool)) (output : L → R → T) (ls : List L)
    (rs : List R)
    → length (joined predicate output ls rs) ≤ length ls
unfolding joined
length-joined predicate output [] rs = omega arith
length-joined {R = R} {T = T} predicate output (l ∷ ls) rs =
    go (drop_to_match predicate l rs) (length-joined predicate output ls)
  where
    go :
        (d : List R)
        → ((rest : List R) → length (joined predicate output ls rest) ≤ length ls)
        → length (elim d as (λ x. List T) [
          | [] ↦ []
          | r ∷ rest ↦ output l r ∷ joined predicate output ls rest
        ])
          ≤ suc (length ls)
    go [] ih = omega arith
    go (r ∷ rest) ih = omega (arith, ih rest)

-- The right child stays at the end once it is there, in the states of `Ended`.
module _ {SL SR L R T : Type 0} (left : Executor SL L) (right : Executor SR R)
    (predicate : Option (L → R → Bool)) (output : L → R → T) (Ended : SR → Type 0)
    (stays : (s : SR) → Ended s → (s' : SR) × (right.next s ≡ ok (none, s')) × Ended s') where
  Remaining : SR → List R → Type 0
  Remaining s rs = (s' : SR) × Yields right s rs s' × Ended s'

  found : L → List R → Option T
  found l [] = none
  found l (r ∷ rs) = some (output l r)

  behind : List R → List R
  behind [] = []
  behind (r ∷ rs) = rs

  ended : (s : SR) → Ended s → Remaining s []
  unfolding Remaining
  ended s h = let e = stays s h in (e.0, finish e.1, e.2)

  seek_found :
      (n : ℕ) (l : L) {s e : SR} {rs : List R}
      → Yields right s rs e
      → Ended e
      → length rs < n
      → (s' : SR) × (seek left right predicate output n l s
          ≡ ok (found l (drop_to_match predicate l rs), s'))
        × Remaining s' (behind (drop_to_match predicate l rs))
  unfolding seek drop_to_match found behind Remaining
  seek_found zero l y h b = absurd (omega arith)
  seek_found (suc n) l {e = e} (finish step) h b = let z = ended e h in (e, rw step refl, z)
  seek_found (suc n) l {e = e} (answer {s' = s} {t = r} {ts = rs} step y) h b =
      elim (Bool-cases (matches predicate l r)) [
        | inl m ↦ (s, rw (seek, step, m) refl, rw m (e, y, h))
        | inr m ↦
            let rest = seek_found n l {s = s} y h (omega arith) in
            (rest.0, rw (seek, step, m) rest.1, rw m rest.2)
      ]

  drop_to_match_le : (l : L) (rs : List R) → length (drop_to_match predicate l rs) ≤ length rs
  unfolding drop_to_match
  drop_to_match_le l [] = omega arith
  drop_to_match_le l (r ∷ rs) = ground (arith, drop_to_match_le l rs)

  at_state : SL → SR → JoinState SL SR
  at_state a s = record { left_executor = a; right_executor = s }

  -- With the right child at its end, Next runs the left child to its end.
  drained :
      (n : ℕ) {a a' : SL} {ls : List L} (s : SR)
      → Yields left a ls a'
      → Remaining s []
      → length ls + 1 < n
      → (st : JoinState SL SR) × (next left right predicate output n (at_state a s) ≡ ok (none, st))
  unfolding next at_state seek Remaining
  drained zero s y h b = absurd (omega arith)
  drained (suc n) {a' = a'} s (finish step) h b = (at_state a' s, rw (next, step) refl)
  drained (suc zero) s (answer step y) h b = absurd (omega arith)
  drained (suc (suc n)) s (answer step y) (last, finish k, h) b =
      let rest = drained (suc n) last y (ended last h) (omega arith) in
      (rest.0, rw (next, step, seek, k) rest.1)

  -- One call of Next with a row of the left child at hand.
  next_joined :
      (n : ℕ) (a a' : SL) (s s' : SR) (l : L) (u : T)
      → left.next a ≡ ok (some l, a')
      → seek left right predicate output n l s ≡ ok (some u, s')
      → next left right predicate output (suc n) (at_state a s) ≡ ok (some u, at_state a' s')
  unfolding next at_state
  next_joined n a a' s s' l u step k = rw (next, step, k) refl

  next_dropped :
      (n : ℕ) (a a' : SL) (s s' : SR) (l : L)
      → left.next a ≡ ok (some l, a')
      → seek left right predicate output n l s ≡ ok (none, s')
      → next left right predicate output (suc n) (at_state a s)
        ≡ next left right predicate output n (at_state a' s')
  unfolding next at_state
  next_dropped n a a' s s' l step k = rw (next, step, k) refl

  next_ended :
      (n : ℕ) (a a' : SL) (s : SR)
      → left.next a ≡ ok (none, a')
      → next left right predicate output (suc n) (at_state a s) ≡ ok (none, at_state a' s)
  unfolding next at_state
  next_ended n a a' s step = rw (next, step) refl

  -- The calls of Next from any point on, with fuel for the rows that are left.
  joined_from :
      (n : ℕ) {a a' : SL} {ls : List L} (s : SR) (rs : List R)
      → Yields left a ls a'
      → Remaining s rs
      → length ls + length rs + 1 < n
      → (st : JoinState SL SR) × Yields
          (executor left right predicate output (suc n))
          (at_state a s)
          (joined predicate output ls rs)
          st
  unfolding executor joined Remaining found behind
  joined_from n {a = a} {a' = a'} s rs (finish step) h b =
      (at_state a' s, finish (next_ended n a a' s step))
  joined_from n {a = a} {a' = a'} s rs (answer {s' = a1} {t = l} {ts = ls} step y) h b =
      go (drop_to_match predicate l rs) (seek_found n l h.1 h.2 (omega arith))
        (drop_to_match_le l rs)
        (λ s' rest k b. joined_from n {a = a1} {a' = a'} {ls = ls} s' rest y k b)
    where
      go :
          (d : List R)
          → (s' : SR) × (seek left right predicate output n l s ≡ ok (found l d, s'))
            × Remaining s' (behind d)
          → length d ≤ length rs
          → ((s' : SR) (rest : List R)
              → Remaining s' rest
              → length ls + length rest + 1 < n
              → (st : JoinState SL SR) × Yields
                  (executor left right predicate output (suc n))
                  (at_state a1 s')
                  (joined predicate output ls rest)
                  st)
          → (st : JoinState SL SR) × Yields
              (executor left right predicate output (suc n))
              (at_state a s)
              (elim d [ [] ↦ [] | r ∷ rest ↦ output l r ∷ joined predicate output ls rest ])
              st
      go [] (s', sought, k) le more =
          let rest = drained n s' y k (omega arith) in
          (rest.0, finish (next_dropped n a a1 s s' l step sought ∙ rest.1))
      go (r ∷ rest) (s', sought, k) le more =
          let later = more s' rest k (omega arith) in
          (later.0, answer (next_joined n a a1 s s' l (output l r) step sought) later.1)

  init_both :
      (s0 : JoinState SL SR) (a : SL) (s : SR)
      → left.init s0.left_executor ≡ ok a
      → right.init s0.right_executor ≡ ok s
      → init left right predicate output s0 ≡ ok (at_state a s)
  unfolding init at_state
  init_both s0 a s i j = rw (i, j) refl

  -- A query that is a nested loop join, of children that start and yield their rows one by one, of
  -- which the right one stays at its end, answers for each row of the left child the first match among
  -- the rows of the right child that no earlier row has passed over, and ends when there is none.
  pub execute-joined :
      (n : ℕ) (s0 : JoinState SL SR) {a a' : SL} {ls : List L} {s s' : SR} {rs : List R}
      → left.init s0.left_executor ≡ ok a
      → right.init s0.right_executor ≡ ok s
      → Yields left a ls a'
      → Yields right s rs s'
      → Ended s'
      → length ls + length rs + 1 < n
      → execute (executor left right predicate output (suc n)) n s0
        ≡ ok (joined predicate output ls rs)
  unfolding executor Remaining
  execute-joined n s0 {a = a} {ls = ls} {s = s} {rs = rs} i j y z h b =
      let rows = joined_from n s rs y (_, z, h) b in
      execute-Yields (executor left right predicate output (suc n)) n (init_both s0 a s i j) rows.1
        (omega (arith, length-joined predicate output ls rs))

unfoldable pub zip_with : {L R T : Type 0} → (L → R → T) → List L → List R → List T
zip_with f [] rs = []
zip_with f (l ∷ ls) [] = []
zip_with f (l ∷ ls) (r ∷ rs) = f l r ∷ zip_with f ls rs

-- Without a predicate every row goes with the next one of the other side, and with no other.
pub joined-zip_with :
    {L R T : Type 0} (output : L → R → T) (ls : List L) (rs : List R)
    → joined none output ls rs ≡ zip_with output ls rs
unfolding joined zip_with drop_to_match matches
joined-zip_with output [] rs = refl
joined-zip_with output (l ∷ ls) [] = refl
joined-zip_with output (l ∷ ls) (r ∷ rs) = ap (λ ts. output l r ∷ ts) (joined-zip_with output ls rs)

-- So of a join without a predicate.
pub execute-zip_with :
    {SL SR L R T : Type 0} (left : Executor SL L) (right : Executor SR R) (output : L → R → T)
    (Ended : SR → Type 0)
    → ((s : SR) → Ended s → (s' : SR) × (right.next s ≡ ok (none, s')) × Ended s')
    → (n : ℕ) (s0 : JoinState SL SR) {a a' : SL} {ls : List L} {s s' : SR} {rs : List R}
    → left.init s0.left_executor ≡ ok a
    → right.init s0.right_executor ≡ ok s
    → Yields left a ls a'
    → Yields right s rs s'
    → Ended s'
    → length ls + length rs + 1 < n
    → execute (executor left right none output (suc n)) n s0 ≡ ok (zip_with output ls rs)
execute-zip_with left right output Ended stays n s0 {ls = ls} {rs = rs} i j y z h b =
    execute-joined left right none output Ended stays n s0 i j y z h b
    ∙ ap ok (joined-zip_with output ls rs)
