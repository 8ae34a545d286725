-- ===== src/Storage/TablePage/Update.antt =====
-- UpdateTuple of a table page.
use lab.Common.{
  ℕ, ◌+◌, ◌-◌, ◌*◌, ◌≤◌, ◌<◌, ◌≡◌, ◌≢◌, ◌⊎◌, inl, inr, refl, true, false, ◌&&◌, none, some, ok,
  ◌==◌, ltb, leb, if◌then◌else◌, update, arith, Bool-cases,
}
use lab.BTree.Entries.{entries_ext}
use lab.Storage.TablePage.{
  Tuple, TablePage, sum32, memcpy, memmove, is_deleted, free_space_remaining, copy_out,
  shift_offsets, replace_tuple, update_tuple,
}
use lab.Storage.TablePage.Valid.{
  sum32_lem, len, IsUsed, IsValid, tuple_at, bytes_of, bytes_of-copy_out, KeepsOthers,
}
use lab.Storage.TablePage.Insert.{free_space_lem}

module _ (p : TablePage) (page_size : ℕ) (v : IsValid p page_size) (slot : ℕ) (u : IsUsed p slot)
    (live : is_deleted (p.sizes slot) ≡ false) (t : Tuple) (some_byte : 0 < t.size)
    (room : t.size ≤ free_space_remaining p + p.sizes slot) where
  abbrev offset : ℕ
  offset = p.offsets slot

  abbrev size : ℕ
  size = p.sizes slot

  abbrev pointer : ℕ
  pointer = p.free_space_pointer

  -- Where things lie.
  facts :
      (len p slot ≡ size)
      × (0 < size)
      × (pointer ≤ offset)
      × (offset + size ≤ 4096)
      × (24 + 8 * p.tuple_count + t.size ≤ pointer + size)
  unfolding is_deleted
  facts = ground (
    arith,
    free_space_lem p page_size v,
    v.header,
    v.in_page,
    v.small,
    v.behind slot u,
    v.before slot u,
    v.long slot u,
  )

  abbrev moved : TablePage
  moved = record p {
    free_space_pointer = sum32 pointer size t.size;
    bytes =
        memcpy (memmove p.bytes (pointer + size - t.size) pointer (offset - pointer))
          (offset + size - t.size) t.content t.size;
    sizes = update p.sizes slot t.size;
  }

  abbrev q : TablePage
  q = record moved { offsets = shift_offsets moved (sum32 offset size 0) size t.size }

  pointer_lem : q.free_space_pointer ≡ pointer + size - t.size
  pointer_lem = ground (arith, facts, sum32_lem pointer size t.size)

  slot_before : (i : ℕ) → IsUsed q i → IsUsed p i
  slot_before i w = record {
    in_count = w.in_count;
    not_empty = λ e. w.not_empty (ground (arith, u.not_empty));
  }

  here_lem :
      (q.offsets slot ≡ offset + size - t.size) × (q.sizes slot ≡ t.size) × (len q slot ≡ t.size)
  unfolding shift_offsets
  here_lem =
      ground (arith, facts, u.in_count, sum32_lem offset size 0, sum32_lem offset size t.size)

  -- A tuple before the updated one moves with the free space, one behind it stays.
  other_lem :
      (i : ℕ)
      → IsUsed p i
      → i ≢ slot
      → (q.sizes i ≡ p.sizes i)
        × (((p.offsets i + len p i ≤ offset) × (q.offsets i ≡ p.offsets i + size - t.size))
            ⊎ ((offset + size ≤ p.offsets i) × (q.offsets i ≡ p.offsets i)))
  unfolding shift_offsets
  other_lem i w d = ground (
    arith,
    facts,
    w.in_count,
    w.not_empty,
    v.apart i slot w u d,
    v.behind i w,
    v.before i w,
    v.long i w,
    sum32_lem offset size 0,
    sum32_lem (p.offsets i) size t.size,
  )

  updated-IsValid : IsValid q page_size
  updated-IsValid = record {
    header = omega (arith, facts, pointer_lem);
    in_page = omega (arith, facts, pointer_lem, v.before slot u);
    small = v.small;
    long = λ i w. elim (Bool-cases (slot == i)) [
      | inl e ↦ ground (arith, here_lem)
      | inr d ↦ ground (arith, other_lem i (slot_before i w), v.long i (slot_before i w))
    ];
    behind = λ i w. elim (Bool-cases (slot == i)) [
      | inl e ↦ ground (arith, here_lem, pointer_lem, facts)
      | inr d ↦
          ground
            (arith, other_lem i (slot_before i w), v.behind i (slot_before i w), pointer_lem, facts)
    ];
    before = λ i w. elim (Bool-cases (slot == i)) [
      | inl e ↦ ground (arith, here_lem, facts, v.before slot u)
      | inr d ↦ ground (
        arith,
        other_lem i (slot_before i w),
        v.before i (slot_before i w),
        v.before slot u,
        facts,
      )
    ];
    apart = λ i j w x n. apart_lem i j (slot_before i w) (slot_before j x) n;
  }
    where
      apart_lem :
          (i j : ℕ)
          → IsUsed p i
          → IsUsed p j
          → i ≢ j
          → (q.offsets i + len q i ≤ q.offsets j) ⊎ (q.offsets j + len q j ≤ q.offsets i)
      apart_lem i j w x n = elim (Bool-cases (slot == i)) [
        | inl e ↦ ground (arith, here_lem, facts, other_lem j x, v.behind j x)
        | inr d ↦ elim (Bool-cases (slot == j)) [
          | inl e ↦ ground (arith, here_lem, facts, other_lem i w, v.behind i w)
          | inr c ↦ ground (
            arith,
            facts,
            other_lem i w,
            other_lem j x,
            v.apart i j w x n,
            v.behind i w,
            v.behind j x,
          )
        ]
      ]

  bytes_lem :
      (j : ℕ)
      → q.bytes j ≡ (
          if leb (offset + size - t.size) j && ltb j (offset + size)
          then t.content (j - (offset + size - t.size))
          else (if leb (pointer + size - t.size) j && ltb j (offset + size - t.size)
              then p.bytes (pointer + (j - (pointer + size - t.size)))
              else p.bytes j))
  unfolding memcpy memmove
  bytes_lem j = ground (arith, facts)

  updated_tuple : tuple_at q slot ≡ bytes_of t
  unfolding tuple_at bytes_of
  updated_tuple =
      rw (here_lem.0, here_lem.2)
        (entries_ext q.bytes t.content (offset + size - t.size) 0 t.size
          (λ j l. ground (arith, facts, bytes_lem (offset + size - t.size + j))))

  kept_tuple : (i : ℕ) → IsUsed p i → i ≢ slot → tuple_at q i ≡ tuple_at p i
  unfolding tuple_at
  kept_tuple i w d =
      let (same, place) = other_lem i w d in
      elim place [
        | inl (below, at) ↦
            rw (same, at)
              (entries_ext q.bytes p.bytes (p.offsets i + size - t.size) (p.offsets i) (len p i)
                (λ j l.
                  ground (arith, facts, v.behind i w, bytes_lem (p.offsets i + size - t.size + j))))
        | inr (above, at) ↦
            rw (same, at)
              (entries_ext q.bytes p.bytes (p.offsets i) (p.offsets i) (len p i)
                (λ j l. ground (arith, facts, bytes_lem (p.offsets i + j))))
      ]

  updated-KeepsOthers : KeepsOthers p q slot
  updated-KeepsOthers = record { same_sizes = λ i l d. ground arith; same_tuples = kept_tuple }

  replaced_lem : replace_tuple p t slot ≡ ok q
  unfolding replace_tuple
  replaced_lem = ground (arith, facts)

  updated_size : q.sizes slot ≡ t.size
  updated_size = here_lem.1

-- What UpdateTuple promises: the page stays valid, the slot holds the new tuple, every other slot keeps
-- its own, and the old tuple is returned.
pub record Updated (p : TablePage) (page_size : ℕ) (t : Tuple) (slot : ℕ) (q : TablePage)
    (old : Tuple) : Type 0 where
  pub valid : IsValid q page_size
  pub stored : tuple_at q slot ≡ bytes_of t
  pub size : q.sizes slot ≡ t.size
  pub same_count : q.tuple_count ≡ p.tuple_count
  pub keeps : KeepsOthers p q slot
  pub returned : bytes_of old ≡ tuple_at p slot

-- Why UpdateTuple refuses: there is no such slot, its tuple is deleted, or the new one does not fit.
abbrev pub Refused : TablePage → Tuple → ℕ → Type 0
Refused p t slot =
    (p.tuple_count ≤ slot)
    ⊎ (is_deleted (p.sizes slot) ≡ true)
    ⊎ (free_space_remaining p + p.sizes slot < t.size)

module _ (p : TablePage) (page_size : ℕ) (v : IsValid p page_size) (t : Tuple)
    (some_byte : 0 < t.size) (slot : ℕ) where
  in_use : slot < p.tuple_count → is_deleted (p.sizes slot) ≡ false → IsUsed p slot
  unfolding is_deleted
  in_use l live = record { in_count = l; not_empty = λ e. ground arith }

  sum_lem :
      is_deleted (p.sizes slot) ≡ false
      → sum32 (free_space_remaining p) (p.sizes slot) 0 ≡ free_space_remaining p + p.sizes slot
  unfolding is_deleted
  sum_lem live = ground (
    arith,
    free_space_lem p page_size v,
    v.in_page,
    v.small,
    sum32_lem (free_space_remaining p) (p.sizes slot) 0,
  )

  -- UpdateTuple on a valid page, by a tuple that is not empty, never fails an assertion: it updates the
  -- slot as it promises, or it refuses for a reason and leaves the page as it is.
  pub update_tuple-Updated :
      ((q : TablePage) × (old : Tuple) × (update_tuple p t slot ≡ ok (q, some old))
        × Updated p page_size t slot q old)
      ⊎ (Refused p t slot × (update_tuple p t slot ≡ ok (p, none)))
  unfolding update_tuple
  update_tuple-Updated = elim (Bool-cases (leb p.tuple_count slot)) [
    | inl out ↦ inr (inl (ground arith), ground arith)
    | inr within ↦ elim (Bool-cases (is_deleted (p.sizes slot))) [
      | inl gone ↦ inr (inr (inl gone), ground arith)
      | inr live ↦ elim (Bool-cases (ltb (free_space_remaining p + p.sizes slot) t.size)) [
        | inl full ↦ inr (inr (inr (ground arith)), ground (arith, sum_lem live))
        | inr fits ↦
            let u : IsUsed p slot = in_use (ground arith) live in
            let room : t.size ≤ free_space_remaining p + p.sizes slot = ground arith in
            inl (
              q p page_size v slot u live t some_byte room,
              copy_out p slot (p.sizes slot),
              ground (arith, sum_lem live, replaced_lem p page_size v slot u live t some_byte room),
              record {
                valid = updated-IsValid p page_size v slot u live t some_byte room;
                stored = updated_tuple p page_size v slot u live t some_byte room;
                size = updated_size p page_size v slot u live t some_byte room;
                same_count = refl;
                keeps = updated-KeepsOthers p page_size v slot u live t some_byte room;
                returned = bytes_of-copy_out p slot live;
              },
            )
      ]
    ]
  ]
