-- ===== src/Buffer/Lru/Holds.antt =====
-- What a state of LRUReplacer holds: the frames on its list, most recently unpinned first.
use lab.Common.{
  ℕ, ◌≡◌, ◌<◌, refl, sym, subst, ◌∙◌, true, false, List, [], ◌∷◌, Option, none, some, map, arith,
  ◌==◌, if◌then◌else◌, update, contains, remove, remove_absent, Distinct, lookup, length,
}
use lab.Buffer.Lru.{LruReplacer, init}
use lab.Buffer.Lru.Ring.{Linked}

-- The first node of `ps` with the frame `f`.
unfoldable pub find : (ℕ → ℕ) → ℕ → List ℕ → Option ℕ
find id f [] = none
find id f (p ∷ ps) = if id p == f then some p else find id f ps

-- The nodes on the list are `nodes`, each live, linked in a ring with the sentinel, of the frames
-- `l`; the table is the search along the list, and the sentinel's `id` is their number.
pub record Holds (s : LruReplacer) (l : List ℕ) : Type 0 where
  pub nodes : List ℕ
  pub frames : map s.id nodes ≡ l
  pub ring : Linked s.next s.prev s.head nodes s.head
  pub distinct : Distinct (s.head ∷ nodes)
  pub frames_distinct : Distinct l
  pub alive : (p : ℕ) → contains p (s.head ∷ nodes) ≡ true → s.live p ≡ true
  pub below : (p : ℕ) → s.live p ≡ true → p < s.fresh
  pub table : (f : ℕ) → lookup f s.tables ≡ find s.id f nodes
  pub count : s.id s.head ≡ length l

module _ (id : ℕ → ℕ) where
  pub find-eq-some :
      (f n : ℕ) (ps : List ℕ)
      → find id f ps ≡ some n
      → (contains n ps ≡ true) × (id n ≡ f) × (contains f (map id ps) ≡ true)
  unfolding find contains
  find-eq-some f n [] h = cc
  find-eq-some f n (p ∷ ps) h = ground (arith, find-eq-some f n ps)

  pub find-eq-none : (f : ℕ) (ps : List ℕ) → find id f ps ≡ none → contains f (map id ps) ≡ false
  unfolding find contains
  find-eq-none f [] h = refl
  find-eq-none f (p ∷ ps) h = ground (arith, find-eq-none f ps)

  find_absent : (f : ℕ) (ps : List ℕ) → contains f (map id ps) ≡ false → find id f ps ≡ none
  unfolding find contains
  find_absent f [] h = refl
  find_absent f (p ∷ ps) h = ground (arith, find_absent f ps)

  pub contains-map :
      (m : ℕ) (qs : List ℕ) → contains m qs ≡ true → contains (id m) (map id qs) ≡ true
  unfolding contains
  contains-map m [] h = cc
  contains-map m (q ∷ qs) h = ground (arith, contains-map m qs)

  pub find_mem :
      (n : ℕ) (ps : List ℕ)
      → contains n ps ≡ true
      → Distinct (map id ps)
      → find id (id n) ps ≡ some n
  unfolding find contains
  find_mem n [] h d = cc
  find_mem n (p ∷ ps) h d = ground (arith, contains-map n ps, find_mem n ps)

  pub find-remove :
      (n g : ℕ) (ps : List ℕ)
      → contains n ps ≡ true
      → Distinct (map id ps)
      → find id g (remove n ps) ≡ (if id n == g then none else find id g ps)
  unfolding find contains remove
  find-remove n g [] h d = cc
  find-remove n g (p ∷ ps) h d =
      ground (arith, contains-map n ps, remove_absent n ps, find_absent g ps, find-remove n g ps)

  pub map-remove :
      (n : ℕ) (ps : List ℕ)
      → contains n ps ≡ true
      → Distinct (map id ps)
      → map id (remove n ps) ≡ remove (id n) (map id ps)
  unfolding contains remove
  map-remove n [] h d = cc
  map-remove n (p ∷ ps) h d = ground (
    arith,
    contains-map n ps,
    remove_absent n ps,
    remove_absent (id n) (map id ps),
    map-remove n ps,
  )

  pub map-update :
      (a v : ℕ) (ps : List ℕ) → contains a ps ≡ false → map (update id a v) ps ≡ map id ps
  unfolding contains
  map-update a v [] h = refl
  map-update a v (p ∷ ps) h = ground (arith, map-update a v ps)

  pub find-update :
      (a v f : ℕ) (ps : List ℕ) → contains a ps ≡ false → find (update id a v) f ps ≡ find id f ps
  unfolding contains find
  find-update a v f [] h = refl
  find-update a v f (p ∷ ps) h = ground (arith, find-update a v f ps)

pub init-Holds : (n : ℕ) → Holds (init n) []
unfolding init contains lookup find
init-Holds n = record {
  nodes = [];
  frames = refl;
  ring = ground arith;
  distinct = ground arith;
  frames_distinct = tt;
  alive = λ p h. ground arith;
  below = λ p h. ground arith;
  table = λ f. refl;
  count = refl;
}

-- A frame has no node exactly when it is not on the list.
pub lookup-eq-none :
    (s : LruReplacer) (l : List ℕ) (f : ℕ)
    → Holds s l
    → lookup f s.tables ≡ none
    → contains f l ≡ false
lookup-eq-none s l f h e =
    subst (λ k. contains f k ≡ false) h.frames (find-eq-none s.id f h.nodes (sym (h.table f) ∙ e))
