-- ===== src/BTree/Entries.antt =====
-- `MappingType array[0]` of a B+ tree page, seen as a function of the index, the loops that move its
-- entries, and the list of the entries that a page counts.
use lab.Common.{
  ℕ, zero, suc, ◌+◌, ◌-◌, ◌<◌, ◌≡◌, refl, ap, List, [], ◌∷◌, ◌++◌, arith, update, if◌then◌else◌,
  ltb, leb, length, ◌&&◌,
}

module _ {A : Type 0} where
  -- `n` entries from the index `i` on.
  unfoldable pub entries : (ℕ → A) → ℕ → ℕ → List A
  entries array i zero = []
  entries array i (suc n) = array i ∷ entries array (i + 1) n

  -- `for (int i = index + n; i > index; i--) array[i] = array[i - 1];`
  unfoldable pub shift_right : (ℕ → A) → ℕ → ℕ → ℕ → A
  shift_right array index zero = array
  shift_right array index (suc n) =
      shift_right (update array (index + suc n) (array (index + n))) index n

  -- `for (int i = index; i < index + n; i++) array[i] = array[i + 1];`
  unfoldable pub shift_left : (ℕ → A) → ℕ → ℕ → ℕ → A
  shift_left array index zero = array
  shift_left array index (suc n) = shift_left (update array index (array (index + 1))) (index + 1) n

  -- `for (int i = 0; i < n; i++) array[i + size] = items[i];`, from `i` on
  unfoldable pub copy_n : (ℕ → A) → ℕ → (ℕ → A) → ℕ → ℕ → ℕ → A
  copy_n array size items i zero = array
  copy_n array size items i (suc n) =
      copy_n (update array (i + size) (items i)) size items (i + 1) n

  pub shift_right_lem :
      (array : ℕ → A) (index n j : ℕ)
      → shift_right array index n j
        ≡ (if ltb index j && leb j (index + n) then array (j - 1) else array j)
  unfolding shift_right
  shift_right_lem array index zero j = ground arith
  shift_right_lem array index (suc n) j =
      ground (arith, shift_right_lem (update array (index + suc n) (array (index + n))) index n j)

  pub shift_left_lem :
      (array : ℕ → A) (index n j : ℕ)
      → shift_left array index n j
        ≡ (if leb index j && ltb j (index + n) then array (j + 1) else array j)
  unfolding shift_left
  shift_left_lem array index zero j = ground arith
  shift_left_lem array index (suc n) j =
      ground (arith, shift_left_lem (update array index (array (index + 1))) (index + 1) n j)

  pub copy_n_lem :
      (array : ℕ → A) (size : ℕ) (items : ℕ → A) (i n j : ℕ)
      → copy_n array size items i n j
        ≡ (if leb (i + size) j && ltb j (i + size + n) then items (j - size) else array j)
  unfolding copy_n
  copy_n_lem array size items i zero j = ground arith
  copy_n_lem array size items i (suc n) j =
      ground (arith, copy_n_lem (update array (i + size) (items i)) size items (i + 1) n j)

  pub entries_ext :
      (a b : ℕ → A) (i k n : ℕ)
      → ((j : ℕ) → j < n → a (i + j) ≡ b (k + j))
      → entries a i n ≡ entries b k n
  unfolding entries
  entries_ext a b i k zero h = refl
  entries_ext a b i k (suc n) h =
      let rest = entries_ext a b (i + 1) (k + 1) n (λ j l. ground (arith, h (suc j))) in
      ground (arith, h 0, rest)

  pub entries-append :
      (a : ℕ → A) (i m n : ℕ) → entries a i (m + n) ≡ entries a i m ++ entries a (i + m) n
  unfolding entries
  entries-append a i zero n = ground arith
  entries-append a i (suc m) n =
      let e : suc m + n ≡ suc (m + n) = omega arith in
      let e' : i + suc m ≡ (i + 1) + m = omega arith in
      rw (e, e') (ap (◌∷◌ (a i)) (entries-append a (i + 1) m n))

  pub entries_split :
      (a : ℕ → A) (i k m l n : ℕ)
      → n ≡ m + l
      → k ≡ i + m
      → entries a i n ≡ entries a i m ++ entries a k l
  entries_split a i k m l n e e' = rw (e, e') (entries-append a i m l)

  pub length-entries : (a : ℕ → A) (i n : ℕ) → length (entries a i n) ≡ n
  unfolding entries
  length-entries a i zero = refl
  length-entries a i (suc n) = omega (arith, length-entries a (i + 1) n)
