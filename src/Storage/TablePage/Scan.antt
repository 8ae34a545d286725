-- ===== src/Storage/TablePage/Scan.antt =====
-- GetFirstTupleRid and GetNextTupleRid of a table page: the slots of the live tuples in order.
use lab.Common.{
  ℕ, zero, suc, ◌+◌, ◌-◌, ◌≤◌, ◌<◌, ◌≡◌, ◌⊎◌, inl, inr, refl, false, Option, none, some, List, [],
  ◌∷◌, if◌then◌else◌, arith, Bool-cases,
}
use lab.Storage.TablePage.{
  TablePage, is_deleted, next_live, get_first_tuple_rid, get_next_tuple_rid,
}

-- The slots of the live tuples among the `n` slots from `i` on.
unfoldable pub live_slots : (ℕ → ℕ) → ℕ → ℕ → List ℕ
live_slots sizes i zero = []
live_slots sizes i (suc n) =
    let rest = live_slots sizes (i + 1) n in if is_deleted (sizes i) then rest else i ∷ rest

-- What a client gets that asks for the first slot and then again and again for the next one, in `fuel`
-- rounds at most; `none` if there are more.
unfoldable pub walk : TablePage → ℕ → Option ℕ → Option (List ℕ)
unfolding get_next_tuple_rid
walk p fuel none = some []
walk p zero (some i) = none
walk p (suc fuel) (some i) = elim (walk p fuel (get_next_tuple_rid p i)) [
  | none ↦ none
  | some rest ↦ some (i ∷ rest)
]

pub next_live-live :
    (sizes : ℕ → ℕ) (i n j : ℕ) → next_live sizes i n ≡ some j → is_deleted (sizes j) ≡ false
unfolding next_live
next_live-live sizes i zero j h = ground arith
next_live-live sizes i (suc n) j h = ground (arith, next_live-live sizes (i + 1) n j)

pub next_live_lem :
    (sizes : ℕ → ℕ) (i n : ℕ)
    → ((next_live sizes i n ≡ none) × (live_slots sizes i n ≡ []))
      ⊎ ((j : ℕ) × (next_live sizes i n ≡ some j)
          × (i ≤ j)
          × (j < i + n)
          × (live_slots sizes i n ≡ j ∷ live_slots sizes (j + 1) (i + n - (j + 1))))
unfolding next_live live_slots
next_live_lem sizes i zero = inl (refl, refl)
next_live_lem sizes i (suc n) = elim (Bool-cases (is_deleted (sizes i))) [
  | inl gone ↦ elim (next_live_lem sizes (i + 1) n) [
    | inl (e, f) ↦ inl (ground (arith, e), ground (arith, f))
    | inr (j, e, l, b, f) ↦
        let rest : i + 1 + n - (j + 1) ≡ i + suc n - (j + 1) = omega arith in
        inr (j, ground (arith, e), omega arith, omega arith, ground (arith, f, rest))
  ]
  | inr live ↦
      let rest : n ≡ i + suc n - (i + 1) = omega arith in
      inr (i, ground arith, omega arith, omega arith, ground (arith, rest))
]

walk_lem :
    (p : TablePage) (fuel i : ℕ)
    → p.tuple_count - i < fuel
    → i ≤ p.tuple_count
    → walk p fuel (next_live p.sizes i (p.tuple_count - i))
      ≡ some (live_slots p.sizes i (p.tuple_count - i))
unfolding walk
walk_lem p zero i h l = absurd (omega arith)
walk_lem p (suc fuel) i h l = elim (next_live_lem p.sizes i (p.tuple_count - i)) [
  | inl (e, f) ↦ ground (arith, e, f)
  | inr (j, e, a, b, f) ↦
      let rest : i + (p.tuple_count - i) - (j + 1) ≡ p.tuple_count - (j + 1) = omega arith in
      ground (arith, e, f, rest, walk_lem p fuel (j + 1))
]

-- GetFirstTupleRid and then GetNextTupleRid until it fails give the slots of all live tuples of a page,
-- each once and in order, and stop, within one round more than there are slots.
pub walk-live_slots :
    (p : TablePage)
    → walk p (p.tuple_count + 1) (get_first_tuple_rid p) ≡ some (live_slots p.sizes 0 p.tuple_count)
unfolding get_first_tuple_rid
walk-live_slots p = ground (arith, walk_lem p (p.tuple_count + 1) 0)
