-- ===== src/Buffer/Lru/Remove.antt =====
-- A node is taken off the list of lru_replacer.cpp, by `Pin` or by `Victim`.
use lab.Common.{
  ℕ, ◌≡◌, ◌≢◌, ◌-◌, sym, subst, true, false, List, ◌∷◌, some, map, arith, update, contains, remove,
  Distinct, lookup, erase, lookup-erase, remove-Distinct, ◌∙◌, contains-remove_self, length-remove,
  contains-remove_ne,
}
use lab.Buffer.Lru.{LruReplacer}
use lab.Buffer.Lru.Ring.{Linked, contains-prev, contains-next, next-ne, prev-ne}
use lab.Buffer.Lru.Holds.{Holds, find-eq-some, find-remove, map-remove, map-update, find-update}

-- The state after a node is taken out, with the links that the method leaves.
abbrev pub without : LruReplacer → ℕ → ℕ → (ℕ → ℕ) → (ℕ → ℕ) → LruReplacer
without s f n next prev = record s {
  next = next;
  prev = prev;
  live = update s.live n false;
  tables = erase f s.tables;
  id = update s.id s.head (s.id s.head - 1);
}

module _ (s : LruReplacer) (l : List ℕ) (h : Holds s l) where
  pub ids-Distinct : Distinct (map s.id h.nodes)
  ids-Distinct = subst Distinct (sym h.frames) h.frames_distinct

  module _ (f n : ℕ) (e : lookup f s.tables ≡ some n) where
    pub found : (contains n h.nodes ≡ true) × (s.id n ≡ f) × (contains f l ≡ true)
    found =
        let (a, b, c) = find-eq-some s.id f n h.nodes (sym (h.table f) ∙ e) in
        (a, b, subst (λ k. contains f k ≡ true) h.frames c)

    neighbours :
        (contains (s.prev n) (s.head ∷ h.nodes) ≡ true)
        × (contains (s.next n) (s.head ∷ h.nodes) ≡ true)
        × (s.next n ≢ n)
        × (s.head ≢ n)
        × (s.prev n ≢ n)
    unfolding contains
    neighbours = ground (
      arith,
      found,
      h.distinct,
      h.ring,
      contains-prev s.next s.prev n s.head h.nodes s.head,
      contains-next s.next s.prev n s.head h.nodes s.head,
      next-ne s.next s.prev n s.head h.nodes s.head,
      prev-ne s.next s.prev n s.head h.nodes s.head,
    )

    -- What `Pin` and `Victim` read and write is live, and the nodes involved differ.
    pub reached :
        (s.live n ≡ true)
        × (s.live (s.next n) ≡ true)
        × (s.live (s.prev n) ≡ true)
        × (s.live s.head ≡ true)
        × (s.next n ≢ n)
        × (s.head ≢ n)
        × (s.prev n ≢ n)
    unfolding contains
    reached = ground (
      arith,
      found,
      neighbours,
      h.alive n,
      h.alive (s.next n),
      h.alive (s.prev n),
      h.alive s.head,
    )

    -- If the links that are left form a ring of the nodes that stay, all else is in order.
    pub without-Holds :
        (next prev : ℕ → ℕ)
        → Linked next prev s.head (remove n h.nodes) s.head
        → Holds (without s f n next prev) (remove f l)
    unfolding contains
    without-Holds next prev ring = record {
      nodes = stay;
      frames = ground (
        arith,
        ids-Distinct,
        found,
        h.frames,
        apart,
        map-remove s.id n h.nodes,
        map-update s.id s.head (s.id s.head - 1) stay,
      );
      ring = ring;
      distinct = ground (arith, apart, h.distinct, remove-Distinct n h.nodes);
      frames_distinct = remove-Distinct f l h.frames_distinct;
      alive = λ p m. ground (
        arith,
        neighbours,
        h.alive p,
        contains-remove_self n h.nodes,
        contains-remove_ne p n h.nodes,
      );
      below = λ p m. ground (arith, h.below p);
      table = λ g. ground (
        arith,
        ids-Distinct,
        found,
        apart,
        h.table g,
        lookup-erase f g s.tables,
        find-remove s.id n g h.nodes,
        find-update s.id s.head (s.id s.head - 1) g stay,
      );
      count = ground (arith, h.count, found, h.frames_distinct, length-remove f l);
    }
      where
        stay : List ℕ
        stay = remove n h.nodes

        apart : contains s.head stay ≡ false
        apart = ground (arith, h.distinct, neighbours, contains-remove_ne s.head n h.nodes)
