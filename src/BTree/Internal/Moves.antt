-- ===== src/BTree/Internal/Moves.antt =====
-- `CopyFirstFrom` and `MoveLastToFrontOf` of an internal page never return.
use lab.Common.{ℕ, zero, suc, ◌+◌, ◌-◌, ◌<◌, ◌≡◌, refl, Bool, none, arith, update}
use lab.BTree.Internal.{
  InternalPage, Parents, shift_up, copy_first_from, move_last_to_front_of, set_key_at,
}

shift_up-none : {K : Type 0} (fuel : ℕ) (array : ℕ → K × ℕ) (i : ℕ) → shift_up fuel array i ≡ none
unfolding shift_up
shift_up-none zero array i = refl
shift_up-none (suc fuel) array i = shift_up-none fuel (update array (i + 1) (array i)) (i + 1)

module _ {K : Type 0} (fetches : ℕ → Bool) (fuel : ℕ) (parents : Parents) where
  -- On a page that is not empty the loop of `CopyFirstFrom`, which counts up where it should count
  -- down, uses up any fuel.
  pub copy_first_from-none :
      (p : InternalPage K) (pair : K × ℕ)
      → 0 < p.size
      → copy_first_from fetches fuel parents p pair ≡ none
  unfolding copy_first_from
  copy_first_from-none p pair n = ground (arith, shift_up-none fuel p.array (p.size - 1))

  -- So `MoveLastToFrontOf` never returns if the recipient has an entry.
  pub move_last_to_front_of-none :
      (p recipient : InternalPage K) (middle_key : K)
      → 0 < recipient.size
      → move_last_to_front_of fetches fuel parents p recipient middle_key ≡ none
  unfolding move_last_to_front_of
  move_last_to_front_of-none p recipient middle_key n =
      ground
        (arith, shift_up-none fuel (set_key_at recipient 0 middle_key).array (recipient.size - 1))
