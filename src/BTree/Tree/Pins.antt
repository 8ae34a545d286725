-- ===== src/BTree/Tree/Pins.antt =====
-- The pins of the pages that the tree fetches (FetchPage and UnpinPage in
-- src/include/buffer/buffer_pool_manager.h).
use lab.Common.{ap, ℕ, ◌+◌, ◌-◌, ◌≤◌, ◌<◌, ◌≡◌, ◌∙◌, refl, some, arith, ◌==◌, if◌then◌else◌, update}
use lab.BTree.Pages.{Pages, can_fetch, fetch, unpin}

module _ {K V : Type 0} where
  -- A page with one more pin.
  unfoldable pub pin : Pages K V → ℕ → Pages K V
  pin p id = record p {
    pins = update p.pins id (p.pins id + 1);
    used = if p.pins id == 0 then p.used + 1 else p.used;
  }

  pub fetch-pin : (p : Pages K V) (id : ℕ) → p.used < p.frames → fetch p id ≡ some (pin p id)
  unfolding fetch pin can_fetch
  fetch-pin p id h = ground arith

  pub pin-nodes : (p : Pages K V) (id : ℕ) → (pin p id).nodes ≡ p.nodes
  unfolding pin
  pin-nodes p id = refl

  -- Room for two pages leaves room for one.
  pub room_pinned :
      (p : Pages K V) (id : ℕ) → p.used + 1 < p.frames → (pin p id).used < (pin p id).frames
  unfolding pin
  room_pinned p id h = ground arith

  -- A pinned page with one pin less.
  unfoldable drop : Pages K V → ℕ → Pages K V
  drop p id = record p {
    pins = update p.pins id (p.pins id - 1);
    used = if p.pins id == 1 then p.used - 1 else p.used;
  }

  unpin-drop : (p : Pages K V) (id : ℕ) → 0 < p.pins id → unpin p id ≡ drop p id
  unfolding unpin drop
  unpin-drop p id h = ground arith

  pinned : (p : Pages K V) (id : ℕ) → (pin p id).pins id ≡ p.pins id + 1
  unfolding pin
  pinned p id = ground arith

  pinned_before : (p : Pages K V) (a b : ℕ) → p.pins a ≤ (pin p b).pins a
  unfolding pin
  pinned_before p a b = ground arith

  drop-pin : (p : Pages K V) (id : ℕ) → drop (pin p id) id ≡ p
  unfolding drop pin
  drop-pin p id = λ i. record p { pins = λ x. counts x i; used = taken i }
    where
      counts : (x : ℕ) → (drop (pin p id) id).pins x ≡ p.pins x
      counts x = ground arith

      taken : (drop (pin p id) id).used ≡ p.used
      taken = ground arith

  drop-pin_other : (p : Pages K V) (a b : ℕ) → drop (pin (pin p a) b) a ≡ pin p b
  unfolding drop pin
  drop-pin_other p a b = λ i. record p { pins = λ x. counts x i; used = taken i }
    where
      counts : (x : ℕ) → (drop (pin (pin p a) b) a).pins x ≡ (pin p b).pins x
      counts x = ground arith

      taken : (drop (pin (pin p a) b) a).used ≡ (pin p b).used
      taken = ground arith

  -- UnpinPage takes FetchPage back.
  pub unpin-pin : (p : Pages K V) (id : ℕ) → unpin (pin p id) id ≡ p
  unpin-pin p id = unpin-drop (pin p id) id (omega (arith, pinned p id)) ∙ drop-pin p id

  -- Once the child is fetched, the page above it is given back.
  pub unpin-pin_other : (p : Pages K V) (a b : ℕ) → unpin (pin (pin p a) b) a ≡ pin p b
  unpin-pin_other p a b =
      unpin-drop (pin (pin p a) b) a (omega (arith, pinned p a, pinned_before (pin p a) a b))
      ∙ drop-pin_other p a b

  pub unpin-nodes : (p : Pages K V) (id : ℕ) → (unpin p id).nodes ≡ p.nodes
  unfolding unpin
  unpin-nodes p id = ground arith

  -- Two new pages are given back.
  pub unpin_two :
      (old p : Pages K V) (id a : ℕ)
      → p.frames ≡ old.frames
      → p.used ≡ old.used + 1 + 1
      → p.pins ≡ update (update old.pins a 1) (a + 1) 1
      → id < a
      → ((unpin (unpin p (a + 1)) a).frames ≡ old.frames)
        × ((unpin (unpin p (a + 1)) a).used ≡ old.used)
        × ((unpin (unpin p (a + 1)) a).pins id ≡ old.pins id)
  unfolding unpin
  unpin_two old p id a x y z h = go
    where
      at : (j : ℕ) → p.pins j ≡ update (update old.pins a 1) (a + 1) 1 j
      at j = ap (λ f. f j) z

      go :
          ((unpin (unpin p (a + 1)) a).frames ≡ old.frames)
          × ((unpin (unpin p (a + 1)) a).used ≡ old.used)
          × ((unpin (unpin p (a + 1)) a).pins id ≡ old.pins id)
      go = (
        ground (arith, at a, at (a + 1), at id),
        ground (arith, at a, at (a + 1), at id),
        ground (arith, at a, at (a + 1), at id),
      )

  -- The page is given back after other pages have come and gone.
  pub unpin_back :
      (p q : Pages K V) (id : ℕ)
      → q.frames ≡ (pin p id).frames
      → q.used ≡ (pin p id).used
      → q.pins id ≡ (pin p id).pins id
      → ((unpin q id).frames ≡ p.frames) × ((unpin q id).used ≡ p.used)
  unfolding unpin pin
  unpin_back p q id f u h = (ground arith, ground arith)
