-- ===== src/BTree/Iterator/Scan.antt =====
-- The loop of an index iterator along the linked leaf pages (src/storage/index/index_iterator.cpp).
use lab.Common.{
  ℕ, zero, suc, ◌+◌, ◌-◌, ◌<◌, ◌≡◌, ◌≢◌, refl, sym, ap, ◌∙◌, arith, true, false, none, some, List,
  [], ◌∷◌, ◌++◌, ok, ◌>>=◌, length, length-append,
}
use lab.BTree.Entries.{entries, length-entries}
use lab.BTree.Leaf.{LeafPage}
use lab.BTree.Leaf.Contents.{contents}
use lab.BTree.Pages.{Node, leaf, internal, Pages}
use lab.BTree.Tree.Pins.{pin, fetch-pin, pin-nodes, room_pinned, unpin-pin, unpin-pin_other}
use lab.BTree.Iterator.{IndexIterator, fetch_data, node_of, destroy, is_end, get, next, scan}

module _ {K V : Type 0} where
  -- The leaf pages of the ids are linked in this order; only the last one may be empty.
  unfoldable pub IsChain : (ℕ → Node K V) → ℕ → List ℕ → Type 0
  IsChain nodes id [] = (l : LeafPage K V) × (nodes id ≡ leaf l) × (l.next_page_id ≡ none)
  IsChain nodes id (next_id ∷ ids) =
      let rest = IsChain nodes next_id ids in
      (l : LeafPage K V) × (nodes id ≡ leaf l)
      × (l.next_page_id ≡ some next_id)
      × (0 < l.size)
      × rest

  -- The entries of a page.
  unfoldable pub node_entries : Node K V → List (K × V)
  unfolding contents
  node_entries (leaf l) = contents l
  node_entries (internal p) = []

  unfoldable pub chain_entries : (ℕ → Node K V) → ℕ → List ℕ → List (K × V)
  unfolding node_entries
  chain_entries nodes id [] = node_entries (nodes id)
  chain_entries nodes id (next_id ∷ ids) =
      let rest = chain_entries nodes next_id ids in node_entries (nodes id) ++ rest

  scan_step :
      (fuel : ℕ) (p q r : Pages K V) (it it' : IndexIterator) (e : K × V) (es : List (K × V))
      → is_end p it ≡ ok false
      → get p it ≡ ok e
      → next p it ≡ ok (q, it')
      → scan fuel q it' ≡ ok (r, es)
      → scan (suc fuel) p it ≡ ok (r, e ∷ es)
  unfolding scan
  scan_step fuel p q r it it' e es more got moved rest =
      rw (scan, more, ◌>>=◌, got) (rw (◌>>=◌, moved) (rw (◌>>=◌, rest) refl))

  scan_ended :
      (fuel : ℕ) (p : Pages K V) (it : IndexIterator)
      → is_end p it ≡ ok true
      → scan (suc fuel) p it ≡ ok (destroy p it, [])
  unfolding scan
  scan_ended fuel p it ended = rw (scan, ended) refl

  module _ (p : Pages K V) (room : p.used + 1 < p.frames) where
    abbrev at : ℕ → ℕ → IndexIterator
    at id i = record { page_id = id; index = i }

    module _ (id : ℕ) (l : LeafPage K V) (e : p.nodes id ≡ leaf l) where
      is_node : (i : ℕ) → node_of (pin p id) (at id i) ≡ ok l
      unfolding node_of
      is_node i = rw (node_of, ap (λ f. f id) (pin-nodes p id) ∙ e) refl

      got : (i : ℕ) → get (pin p id) (at id i) ≡ ok (l.array i)
      unfolding get
      got i = rw (is_node i) refl

      not_ended : (i : ℕ) → i < l.size → is_end (pin p id) (at id i) ≡ ok false
      unfolding is_end
      not_ended i b = rw (is_node i) (ground arith)

      -- From one entry of the page to the next.
      moved : (i : ℕ) → i + 1 ≢ l.size → next (pin p id) (at id i) ≡ ok (pin p id, at id (i + 1))
      unfolding next
      moved i d = rw (is_node i) (ground arith)

      module _ (last : l.next_page_id ≡ none) where
        ended : is_end (pin p id) (at id l.size) ≡ ok true
        unfolding is_end
        ended = rw (is_node l.size, last) (ground arith)

        moved_last : (i : ℕ) → next (pin p id) (at id i) ≡ ok (pin p id, at id (i + 1))
        unfolding next
        moved_last i = rw (is_node i, last) (ground arith)

        scan_last :
            (n i fuel : ℕ)
            → i + n ≡ l.size
            → n < fuel
            → scan fuel (pin p id) (at id i) ≡ ok (p, entries l.array i n)
        unfolding entries destroy
        scan_last n i zero s b = absurd (omega arith)
        scan_last zero i (suc fuel) s b =
            let given_back : destroy (pin p id) (at id i) ≡ p = unpin-pin p id in
            let at_end : i ≡ l.size = omega arith in
            scan_ended fuel (pin p id) (at id i) (rw at_end ended) ∙ (λ k. ok (given_back k, []))
        scan_last (suc n) i (suc fuel) s b =
            scan_step fuel (pin p id) (pin p id) p (at id i) (at id (i + 1)) (l.array i)
              (entries l.array (i + 1) n) (not_ended i (omega arith)) (got i) (moved_last i)
              (scan_last n (i + 1) fuel (omega arith) (omega arith))

      module _ (next_id : ℕ) (linked : l.next_page_id ≡ some next_id) where
        -- From the last entry of the page to the next page.
        moved_on :
            (i : ℕ) → i + 1 ≡ l.size → next (pin p id) (at id i) ≡ ok (pin p next_id, at next_id 0)
        unfolding next fetch_data
        moved_on i s =
            rw (is_node i, linked) (ground (arith, fetched))
            ∙ (λ k. ok (unpin-pin_other p id next_id k, at next_id 0))
          where
            fetched : fetch_data (pin p id) next_id ≡ ok (pin (pin p id) next_id)
            fetched = rw (fetch_data, fetch-pin (pin p id) next_id (room_pinned p id room)) refl

        scan_page :
            (rest : List (K × V)) (k : ℕ)
            → ((fuel : ℕ) → k < fuel → scan fuel (pin p next_id) (at next_id 0) ≡ ok (p, rest))
            → (n i fuel : ℕ) → i + suc n ≡ l.size
            → suc n + k < fuel
            → scan fuel (pin p id) (at id i) ≡ ok (p, entries l.array i (suc n) ++ rest)
        unfolding entries
        scan_page rest k go n i zero s b = absurd (omega arith)
        scan_page rest k go zero i (suc fuel) s b =
            scan_step fuel (pin p id) (pin p next_id) p (at id i) (at next_id 0) (l.array i) rest
              (not_ended i (omega arith)) (got i) (moved_on i (omega arith)) (go fuel (omega arith))
        scan_page rest k go (suc n) i (suc fuel) s b =
            scan_step fuel (pin p id) (pin p id) p (at id i) (at id (i + 1)) (l.array i)
              (entries l.array (i + 1) (suc n) ++ rest) (not_ended i (omega arith)) (got i)
              (moved i (λ e. omega arith))
              (scan_page rest k go n (i + 1) fuel (omega arith) (omega arith))

    leaf_entries :
        (id : ℕ) (l : LeafPage K V)
        → p.nodes id ≡ leaf l
        → node_entries (p.nodes id) ≡ entries l.array 0 l.size
    unfolding node_entries contents
    leaf_entries id l e = rw e refl

    positive : (n : ℕ) → 0 < n → (m : ℕ) × (n ≡ suc m)
    positive n h = (n - 1, omega arith)

    -- The loop of an iterator that stands at the first entry of a page, along linked leaf pages of
    -- which only the last may be empty, with two frames free of pinned pages and more fuel than there
    -- are entries, sees the entries of all the pages in order, and leaves the pages and their pins as
    -- they were before the iterator.
    pub scan-chain_entries :
        (ids : List ℕ) (id fuel : ℕ)
        → IsChain p.nodes id ids
        → length (chain_entries p.nodes id ids) < fuel
        → scan fuel (pin p id) (record { page_id = id; index = 0 })
          ≡ ok (p, chain_entries p.nodes id ids)
    unfolding IsChain chain_entries
    scan-chain_entries [] id fuel (l, e, last) b =
        let same = leaf_entries id l e in
        scan_last id l e last l.size 0 fuel (omega arith)
          (omega (arith, b, ap length same, length-entries l.array 0 l.size))
        ∙ sym (ap (λ es. ok (p, es)) same)
    scan-chain_entries (next_id ∷ ids) id fuel (l, e, linked, some_entry, rest) b =
        let tail = chain_entries p.nodes next_id ids in
        let same = leaf_entries id l e in
        let (n, s) = positive l.size some_entry in
        scan_page id l e next_id linked tail (length tail)
          (λ fuel b. scan-chain_entries ids next_id fuel rest b) n 0 fuel (omega arith)
          (omega (
            arith,
            b,
            s,
            ap length same,
            length-entries l.array 0 l.size,
            length-append (node_entries (p.nodes id)) tail,
          ))
        ∙ ap (λ m. ok (p, entries l.array 0 m ++ tail)) (sym s)
        ∙ sym (ap (λ es. ok (p, es ++ tail)) same)
