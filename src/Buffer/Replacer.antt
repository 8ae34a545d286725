-- ===== src/Buffer/Replacer.antt =====
-- src/include/buffer/replacer.h: the contract of a Replacer, as the buffer pool uses it. The
-- abstract state is the list of the frames that may be evicted.
use lab.Common.{
  ℕ, ◌≡◌, Option, none, some, List, [], ◌∷◌, Outcome, ok, true, if◌then◌else◌, contains, remove,
  length,
}

-- Victim: the frames that stay.
abbrev pub after_victim : Option ℕ → List ℕ → List ℕ
after_victim none l = l
after_victim (some f) l = remove f l

abbrev pub after_pin : ℕ → List ℕ → List ℕ
after_pin f l = remove f l

abbrev pub after_unpin : ℕ → List ℕ → List ℕ
after_unpin f l = if contains f l then l else f ∷ l

-- A victim is one of the frames, and there is none only if there is no frame.
abbrev pub Chosen : List ℕ → Option ℕ → Type 0
Chosen l none = l ≡ []
Chosen l (some f) = contains f l ≡ true

pub record Replacer : Type 1 where
  pub State : Type 0
  pub Holds : State → List ℕ → Type 0
  pub victim : State → Outcome (State × Option ℕ)
  pub pin : State → ℕ → Outcome State
  pub unpin : State → ℕ → Outcome State
  pub size : State → Outcome ℕ
  pub victim_lem :
      (s : State) (l : List ℕ)
      → Holds s l
      → (s' : State) × (r : Option ℕ) × (victim s ≡ ok (s', r))
        × Chosen l r
        × Holds s' (after_victim r l)
  pub pin_lem :
      (s : State) (l : List ℕ) (f : ℕ)
      → Holds s l
      → (s' : State) × (pin s f ≡ ok s') × Holds s' (after_pin f l)
  pub unpin_lem :
      (s : State) (l : List ℕ) (f : ℕ)
      → Holds s l
      → (s' : State) × (unpin s f ≡ ok s') × Holds s' (after_unpin f l)
  pub size_lem : (s : State) (l : List ℕ) → Holds s l → size s ≡ ok (length l)
