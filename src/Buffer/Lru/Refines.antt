-- ===== src/Buffer/Lru/Refines.antt =====
-- The methods of LRUReplacer against the list of frames that a state holds.
use lab.Common.{
  ℕ, ◌≡◌, ◌≢◌, ◌+◌, refl, sym, ap, subst, true, false, List, [], ◌∷◌, ◌++◌, none, some, map, arith,
  update, contains, remove, remove_absent, Distinct, lookup, insert, length, ok, Option-cases, inl,
  inr, lookup-insert, ◌∙◌, contains-remove_self, last_of, last_of-append,
}
use mathlib.Core.List.{map-append}
use lab.Buffer.Lru.{LruReplacer, pin, unpin, push_front, victim, size}
use lab.Buffer.Lru.Ring.{
  Linked, Linked-remove, Linked-insert, contains-next, Linked-update, contains-last, remove-last,
}
use lab.Buffer.Lru.Holds.{Holds, lookup-eq-none, find, map-update, find-update, find_mem}
use lab.Buffer.Lru.Remove.{without, ids-Distinct, found, reached, without-Holds}
use lab.Buffer.Replacer.{after_pin, after_unpin, after_victim}

-- `Pin` takes the frame off the list, and touches no node that is gone.
pub pin-refines :
    (s : LruReplacer) (l : List ℕ) (f : ℕ)
    → Holds s l
    → (s' : LruReplacer) × (pin s f ≡ ok s') × Holds s' (after_pin f l)
unfolding pin
pin-refines s l f h = elim (Option-cases (lookup f s.tables)) [
  | inl e ↦ (s, rw (e, pin), rw (remove_absent f l (lookup-eq-none s l f h e)) h)
  | inr (n, e) ↦
      let next = update s.next (s.prev n) (s.next n) in
      let prev = update s.prev (s.next n) (s.prev n) in
      (
        without s f n next prev,
        ground (arith, reached s l h f n e),
        without-Holds s l h f n e next prev (
            Linked-remove s.next s.prev n s.head h.nodes s.head (found s l h f n e).0 h.distinct.0
              h.distinct h.ring),
      )
]

-- The state after a node for `f` is put to the front.
abbrev pushed : LruReplacer → ℕ → LruReplacer
pushed s f =
    let next = update s.next s.fresh s.fresh in
    let prev = update s.prev s.fresh s.fresh in
    record s {
      tables = insert f s.fresh s.tables;
      id = update (update s.id s.fresh f) s.head (s.id s.head + 1);
      next = update (update next s.fresh (next s.head)) s.head s.fresh;
      prev = update (update prev s.fresh s.head) (next s.head) s.fresh;
      live = update s.live s.fresh true;
      fresh = s.fresh + 1;
    }

module _ (s : LruReplacer) (l : List ℕ) (f : ℕ) (h : Holds s l) (e : lookup f s.tables ≡ none) where
  -- The new node is none of the nodes that are there.
  unused : contains s.fresh (s.head ∷ h.nodes) ≡ false
  unused = ground (arith, h.alive s.fresh, h.below s.fresh)

  first_alive : s.live (s.next s.head) ≡ true
  unfolding contains
  first_alive = ground (
    arith,
    contains-next s.next s.prev s.head s.head h.nodes s.head,
    h.ring,
    h.alive s.head,
    h.alive (s.next s.head),
  )

  push_front_lem : push_front s f ≡ ok (pushed s f)
  unfolding push_front contains
  push_front_lem = ground (arith, unused, first_alive, h.alive s.head)

  pushed-Holds : Holds (pushed s f) (f ∷ l)
  unfolding contains find
  pushed-Holds = record {
    nodes = s.fresh ∷ h.nodes;
    frames = ground (
      arith,
      unused,
      h.distinct,
      h.frames,
      map-update s.id s.fresh f h.nodes,
      map-update (update s.id s.fresh f) s.head (s.id s.head + 1) h.nodes,
    );
    ring =
        Linked-insert (update s.next s.fresh s.fresh) (update s.prev s.fresh s.fresh) s.fresh s.head
          h.nodes s.head unused (ground (arith, unused)) h.distinct.0 h.distinct.0 h.distinct.1
          (Linked-update s.next s.prev s.fresh s.fresh s.fresh s.fresh s.head h.nodes s.head unused
            (ground (arith, unused)) (ground (arith, unused)) h.ring);
    distinct = ground (arith, unused, h.distinct);
    frames_distinct = (lookup-eq-none s l f h e, h.frames_distinct);
    alive = λ p m. ground (arith, h.alive p);
    below = λ p m. ground (arith, h.below p);
    table = λ g. ground (
      arith,
      unused,
      h.distinct,
      h.table g,
      lookup-insert f g s.fresh s.tables,
      find-update s.id s.fresh f g h.nodes,
      find-update (update s.id s.fresh f) s.head (s.id s.head + 1) g h.nodes,
    );
    count = ground (arith, h.count);
  }

-- `Unpin` puts a frame that is not on the list to its front.
pub unpin-refines :
    (s : LruReplacer) (l : List ℕ) (f : ℕ)
    → Holds s l
    → (s' : LruReplacer) × (unpin s f ≡ ok s') × Holds s' (after_unpin f l)
unfolding unpin
unpin-refines s l f h = elim (Option-cases (lookup f s.tables)) [
  | inl e ↦ (
    pushed s f,
    rw (e, unpin) (push_front_lem s l f h e),
    rw (lookup-eq-none s l f h e) (pushed-Holds s l f h e),
  )
  | inr (n, e) ↦ (s, rw (e, unpin), rw (found s l h f n e).2 h)
]

-- The state after `Victim`: the node's own links are reset before it is deleted.
abbrev evicted : LruReplacer → ℕ → ℕ → LruReplacer
evicted s f v =
    without s f v (update (update s.next (s.prev v) s.head) v v)
      (update (update s.prev s.head (s.prev v)) v v)

module _ (s : LruReplacer) (l : List ℕ) (h : Holds s l) (x : ℕ) (xs : List ℕ)
    (nodes : h.nodes ≡ x ∷ xs) where
  abbrev ring : Linked s.next s.prev s.head (x ∷ xs) s.head
  ring = subst (λ k. Linked s.next s.prev s.head k s.head) nodes h.ring

  apart : Distinct (s.head ∷ x ∷ xs)
  apart = subst (λ k. Distinct (s.head ∷ k)) nodes h.distinct

  last_mem : (contains (s.prev s.head) h.nodes ≡ true) × (s.next (s.prev s.head) ≡ s.head)
  last_mem =
      let (m, e) = contains-last s.next s.prev s.head x xs s.head ring in
      (subst (λ k. contains (s.prev s.head) k ≡ true) (sym nodes) m, e)

  first_apart : s.next s.head ≢ s.head
  unfolding contains
  first_apart = ground (arith, ring, apart)

  -- The last node is in the table.
  last_found :
      (lookup (s.id (s.prev s.head)) s.tables ≡ some (s.prev s.head))
      × (s.next (s.prev s.head) ≡ s.head)
      × (s.next s.head ≢ s.head)
  last_found = (
    h.table _ ∙ find_mem s.id (s.prev s.head) h.nodes last_mem.0 (ids-Distinct s l h),
    last_mem.1,
    first_apart,
  )

  last_frame : last_of l ≡ some (s.id (s.prev s.head))
  last_frame =
      let whole : remove (s.prev s.head) (x ∷ xs) ++ s.prev s.head ∷ [] ≡ x ∷ xs =
        remove-last s.next s.prev s.head x xs s.head apart.1 ring in
      let ids = ap (map s.id) (whole ∙ sym nodes) ∙ h.frames in
      ap last_of (sym ids)
      ∙ ap last_of (map-append s.id (remove (s.prev s.head) (x ∷ xs)) (s.prev s.head ∷ []))
      ∙ last_of-append _ _

  victim_lem :
      victim s ≡ ok (evicted s (s.id (s.prev s.head)) (s.prev s.head), some (s.id (s.prev s.head)))
  unfolding victim
  victim_lem = ground (arith, last_found, reached s l h (s.id (s.prev s.head)) (s.prev s.head))

  evicted_ring :
      Linked
        (update (update s.next (s.prev (s.prev s.head)) s.head) (s.prev s.head) (s.prev s.head))
        (update (update s.prev s.head (s.prev (s.prev s.head))) (s.prev s.head) (s.prev s.head))
        s.head
        (remove (s.prev s.head) h.nodes)
        s.head
  unfolding contains
  evicted_ring =
      let v = s.prev s.head in
      let stay =
        Linked-remove s.next s.prev v s.head h.nodes s.head last_mem.0 h.distinct.0 h.distinct
          h.ring in
      Linked-update _ _ v v v v s.head (remove v h.nodes) s.head
        (ground (arith, contains-remove_self v h.nodes, h.distinct, last_mem))
        (contains-remove_self v h.nodes) (ground (arith, h.distinct, last_mem))
        (subst
          (λ a.
            Linked (update s.next (s.prev v) a) (update s.prev a (s.prev v)) s.head
              (remove v h.nodes) s.head)
          last_mem.1 stay)

  evicted-Holds :
      Holds (evicted s (s.id (s.prev s.head)) (s.prev s.head)) (remove (s.id (s.prev s.head)) l)
  evicted-Holds =
      without-Holds s l h (s.id (s.prev s.head)) (s.prev s.head) last_found.0 _ _ evicted_ring

victim_cases :
    (s : LruReplacer) (l : List ℕ) (h : Holds s l) (ps : List ℕ)
    → h.nodes ≡ ps
    → (s' : LruReplacer) × (victim s ≡ ok (s', last_of l)) × Holds s' (after_victim (last_of l) l)
unfolding victim last_of contains
victim_cases s l h [] e =
    let empty : l ≡ [] = sym h.frames ∙ ap (map s.id) e in
    let alone : s.next s.head ≡ s.head =
      (subst (λ k. Linked s.next s.prev s.head k s.head) e h.ring).0 in
    (s, rw empty (ground (arith, alone, h.alive s.head)), rw empty (subst (Holds s) empty h))
victim_cases s l h (x ∷ xs) e = (
  evicted s (s.id (s.prev s.head)) (s.prev s.head),
  rw (last_frame s l h x xs e) (victim_lem s l h x xs e),
  rw (last_frame s l h x xs e) (evicted-Holds s l h x xs e),
)

-- `Victim` takes the last frame off the list, the one that was unpinned the longest ago.
pub victim-refines :
    (s : LruReplacer) (l : List ℕ)
    → Holds s l
    → (s' : LruReplacer) × (victim s ≡ ok (s', last_of l)) × Holds s' (after_victim (last_of l) l)
victim-refines s l h = victim_cases s l h h.nodes refl

-- `Size` is the number of frames.
pub size-refines : (s : LruReplacer) (l : List ℕ) → Holds s l → size s ≡ ok (length l)
unfolding size contains
size-refines s l h = ground (arith, h.count, h.alive s.head)
