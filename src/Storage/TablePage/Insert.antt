-- ===== src/Storage/TablePage/Insert.antt =====
-- InsertTuple of a table page.
use lab.Common.{
  ℕ, zero, suc, ◌+◌, ◌-◌, ◌*◌, ◌≤◌, ◌<◌, ◌≡◌, ◌≢◌, ◌⊎◌, inl, inr, refl, sym, ◌∙◌, false, ◌&&◌, none,
  some, ok, ◌==◌, ltb, leb, if◌then◌else◌, arith, Bool-cases,
}
use lab.BTree.Entries.{entries_ext}
use lab.Storage.TablePage.{
  Tuple, TablePage, memcpy, is_deleted, free_space_remaining, find_slot, place_tuple, insert_tuple,
  copy_out, get_tuple,
}
use lab.Storage.TablePage.Valid.{
  sum32_lem, len, IsUsed, IsValid, tuple_at, bytes_of, bytes_of-copy_out, KeepsOthers,
}

find_slot_lem :
    (sizes : ℕ → ℕ) (i n : ℕ)
    → (find_slot sizes i n ≤ i + n)
      × (find_slot sizes i n < i + n → sizes (find_slot sizes i n) ≡ 0)
unfolding find_slot
find_slot_lem sizes i zero = (omega arith, λ h. absurd (omega arith))
find_slot_lem sizes i (suc n) = ground (arith, find_slot_lem sizes (i + 1) n)

module _ (p : TablePage) (page_size : ℕ) (v : IsValid p page_size) where
  pub free_space_lem : free_space_remaining p ≡ p.free_space_pointer - (24 + 8 * p.tuple_count)
  unfolding free_space_remaining
  free_space_lem = ground (
    arith,
    v.header,
    v.in_page,
    v.small,
    sum32_lem p.free_space_pointer 0 (24 + 8 * p.tuple_count),
  )

  module _ (tuple : Tuple) (some_byte : 0 < tuple.size)
      (room : tuple.size + 8 ≤ free_space_remaining p) where
    abbrev slot : ℕ
    slot = find_slot p.sizes 0 p.tuple_count

    abbrev q : TablePage
    q = (place_tuple p tuple).0

    pointer_lem :
        (q.free_space_pointer ≡ p.free_space_pointer - tuple.size)
        × (24 + 8 * p.tuple_count + 8 + tuple.size ≤ p.free_space_pointer)
    unfolding place_tuple
    pointer_lem = ground (
      arith,
      v.header,
      v.in_page,
      v.small,
      free_space_lem,
      sum32_lem p.free_space_pointer 0 tuple.size,
    )

    slot_lem : (slot ≤ p.tuple_count) × (slot < p.tuple_count → p.sizes slot ≡ 0)
    slot_lem = ground (arith, find_slot_lem p.sizes 0 p.tuple_count)

    slot_cases : (i : ℕ) → IsUsed q i → (slot ≡ i) ⊎ ((slot ≢ i) × IsUsed p i)
    unfolding place_tuple
    slot_cases i u = elim (Bool-cases (slot == i)) [
      | inl here ↦ inl (ground arith)
      | inr other ↦ inr (
        ground arith,
        record {
          in_count = ground (arith, u.in_count, slot_lem);
          not_empty = λ e. u.not_empty (ground arith);
        },
      )
    ]

    here_lem :
        (q.offsets slot ≡ q.free_space_pointer)
        × (q.sizes slot ≡ tuple.size)
        × (len q slot ≡ tuple.size)
    unfolding place_tuple
    here_lem = ground (arith, pointer_lem, v.in_page, v.small)

    other_lem : (i : ℕ) → slot ≢ i → (q.offsets i ≡ p.offsets i) × (q.sizes i ≡ p.sizes i)
    unfolding place_tuple
    other_lem i d = ground arith

    count_lem : q.tuple_count ≤ p.tuple_count + 1
    unfolding place_tuple
    count_lem = ground arith

    counted_lem : p.tuple_count ≤ q.tuple_count
    unfolding place_tuple
    counted_lem = ground arith

    placed-IsValid : IsValid q page_size
    placed-IsValid = record {
      header = omega (arith, pointer_lem, count_lem);
      in_page = omega (arith, pointer_lem, v.in_page);
      small = v.small;
      long = λ i u. elim (slot_cases i u) [
        | inl e ↦ ground (arith, e, here_lem)
        | inr (d, w) ↦ ground (arith, other_lem i d, v.long i w)
      ];
      behind = λ i u. elim (slot_cases i u) [
        | inl e ↦ ground (arith, e, here_lem)
        | inr (d, w) ↦ ground (arith, other_lem i d, v.behind i w, pointer_lem)
      ];
      before = λ i u. elim (slot_cases i u) [
        | inl e ↦ ground (arith, e, here_lem, pointer_lem, v.in_page)
        | inr (d, w) ↦ ground (arith, other_lem i d, v.before i w)
      ];
      apart = λ i j u w n. elim (slot_cases i u) [
        | inl e ↦ elim (slot_cases j w) [
          | inl f ↦ absurd (n (sym e ∙ f))
          | inr (d, x) ↦ inl (ground (arith, e, here_lem, pointer_lem, other_lem j d, v.behind j x))
        ]
        | inr (d, x) ↦ elim (slot_cases j w) [
          | inl f ↦ inr (ground (arith, f, here_lem, pointer_lem, other_lem i d, v.behind i x))
          | inr (c, y) ↦ ground (arith, other_lem i d, other_lem j c, v.apart i j x y n)
        ]
      ];
    }

    placed_bytes :
        (j : ℕ)
        → q.bytes j ≡ (
            if leb q.free_space_pointer j && ltb j (q.free_space_pointer + tuple.size)
            then tuple.content (j - q.free_space_pointer)
            else p.bytes j)
    unfolding place_tuple memcpy
    placed_bytes j = refl

    placed_tuple : tuple_at q slot ≡ bytes_of tuple
    unfolding tuple_at bytes_of
    placed_tuple =
        rw (here_lem.0, here_lem.2)
          (entries_ext q.bytes tuple.content q.free_space_pointer 0 tuple.size
            (λ j l. ground (arith, placed_bytes (q.free_space_pointer + j))))

    placed-IsUsed : IsUsed q slot
    unfolding place_tuple
    placed-IsUsed = record {
      in_count = ground (arith, slot_lem);
      not_empty = λ e. ground (arith, here_lem);
    }

    placed_live : is_deleted (q.sizes slot) ≡ false
    unfolding is_deleted
    placed_live = ground (arith, here_lem, pointer_lem, v.in_page, v.small)

    placed-KeepsOthers : KeepsOthers p q slot
    unfolding tuple_at
    placed-KeepsOthers = record {
      same_sizes = λ i l d. (other_lem i (λ e. d (sym e))).1;
      same_tuples = λ i u d.
          let o = other_lem i (λ e. d (sym e)) in
          rw (o.0, o.1)
            (entries_ext q.bytes p.bytes (p.offsets i) (p.offsets i) (len p i)
              (λ j l. ground (arith, placed_bytes (p.offsets i + j), v.behind i u, pointer_lem)));
    }

    placed_lem : place_tuple p tuple ≡ (q, slot)
    unfolding place_tuple
    placed_lem = refl

  -- What InsertTuple promises: a tuple for which there is room goes into a slot that was not in use; the
  -- page stays valid, the slot holds the tuple, and every other slot keeps its own.
  pub record Inserted (tuple : Tuple) (q : TablePage) (slot : ℕ) : Type 0 where
    pub valid : IsValid q page_size
    pub unused : (p.tuple_count ≤ slot) ⊎ (p.sizes slot ≡ 0)
    pub used : IsUsed q slot
    pub live : is_deleted (q.sizes slot) ≡ false
    pub stored : tuple_at q slot ≡ bytes_of tuple
    pub same_size : q.sizes slot ≡ tuple.size
    pub counted : p.tuple_count ≤ q.tuple_count
    pub keeps : KeepsOthers p q slot

  -- InsertTuple on a valid page, of a tuple that is not empty, never fails an assertion: it puts the
  -- tuple in as it promises if the tuple and a slot fit in the free space, and else it refuses and
  -- leaves the page as it is.
  pub insert_tuple-Inserted :
      (tuple : Tuple)
      → 0 < tuple.size
      → ((q : TablePage) × (slot : ℕ) × (insert_tuple p tuple ≡ ok (q, some slot))
          × Inserted tuple q slot)
        ⊎ ((free_space_remaining p < tuple.size + 8) × (insert_tuple p tuple ≡ ok (p, none)))
  unfolding insert_tuple
  insert_tuple-Inserted tuple h =
      elim (Bool-cases (ltb (free_space_remaining p) (tuple.size + 8))) [
        | inl full ↦ inr (ground arith, ground arith)
        | inr fits ↦
            let room : tuple.size + 8 ≤ free_space_remaining p = ground arith in
            inl (
              q tuple h room,
              slot tuple h room,
              ground (arith, placed_lem tuple h room),
              record {
                valid = placed-IsValid tuple h room;
                unused = ground (arith, slot_lem tuple h room);
                used = placed-IsUsed tuple h room;
                live = placed_live tuple h room;
                stored = placed_tuple tuple h room;
                same_size = (here_lem tuple h room).1;
                counted = counted_lem tuple h room;
                keeps = placed-KeepsOthers tuple h room;
              },
            )
      ]

  -- GetTuple reads the tuple back from its slot, byte for byte.
  pub Inserted-get_tuple :
      (tuple : Tuple) (q : TablePage) (slot : ℕ)
      → Inserted tuple q slot
      → (t : Tuple) × (get_tuple q slot ≡ some t)
        × (t.size ≡ tuple.size)
        × (bytes_of t ≡ bytes_of tuple)
  unfolding get_tuple copy_out
  Inserted-get_tuple tuple q slot done = (
    copy_out q slot (q.sizes slot),
    ground (arith, done.live, done.used.in_count),
    done.same_size,
    bytes_of-copy_out q slot done.live ∙ done.stored,
  )
