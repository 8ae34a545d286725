-- ===== src/Types/Narrow.antt =====
-- What narrowing an integer to a width keeps: the facts about the casts of src/type.
use lab.Common.{
  ℕ, ◌-◌, ◌*◌, ◌%◌, ◌<◌, ◌≤◌, ◌≡◌, sym, subst, ◌∙◌, true, false, not, ℤ, pos, negsuc, ◌==ℤ◌,
  ==ℤ_refl, ==ℤ_iff, arith, if◌then◌else◌, Bool-cases, inl, inr,
}
use native.Mathlib.Nat.{mod-lt, mod-eq_of_lt}
use lab.Types.Value.{
  IntType, tinyint, smallint, integer, bigint, size_of, half, payload, fits, signed, narrow,
}
use lab.Types.Arithmetic.{promoted, at_least_as_wide, fits_neither}

pub half_pos : (t : IntType) → 0 < half t
unfolding half
half_pos tinyint = omega arith
half_pos smallint = omega arith
half_pos integer = omega arith
half_pos bigint = omega arith

signed-bound : (h r : ℕ) → r < 2 * h → payload (signed h r) < h
unfolding signed payload
signed-bound h r lt = ground arith

pub narrow-fits : (t : IntType) (z : ℤ) → fits t (narrow t z) ≡ true
unfolding fits narrow
narrow-fits t (pos n) =
    ground (arith, half_pos t, mod-lt n {m = 2 * half t}, signed-bound (half t) (n % (2 * half t)))
narrow-fits t (negsuc n) = ground (
  arith,
  half_pos t,
  mod-lt n {m = 2 * half t},
  signed-bound (half t) (2 * half t - 1 - n % (2 * half t)),
)

pub signed_pos : (h n : ℕ) → n < h → signed h n ≡ pos n
unfolding signed
signed_pos h n lt = ground arith

pub signed_negsuc : (h n : ℕ) → n < h → signed h (2 * h - 1 - n) ≡ negsuc n
unfolding signed
signed_negsuc h n lt = ground arith

-- A number that the width holds is kept.
pub narrow_id : (t : IntType) (z : ℤ) → fits t z ≡ true → narrow t z ≡ z
unfolding fits narrow payload
narrow_id t (pos n) h =
    rw (mod-eq_of_lt {n = n} {m = 2 * half t} (ground (arith, half_pos t)))
      (signed_pos (half t) n (ground arith))
narrow_id t (negsuc n) h =
    rw (mod-eq_of_lt {n = n} {m = 2 * half t} (ground (arith, half_pos t)))
      (signed_negsuc (half t) n (ground arith))

-- A number is its own narrowing exactly when the width holds it.
pub same-narrow : (t : IntType) (z : ℤ) → (z ==ℤ narrow t z) ≡ fits t z
same-narrow t z = elim (Bool-cases (fits t z)) [
  | inl h ↦ rw (narrow_id t z h) (==ℤ_refl z ∙ sym h)
  | inr h ↦ elim (Bool-cases (z ==ℤ narrow t z)) [
    | inl e ↦ e ∙ sym (subst (λ u. fits t u ≡ true) (sym ((==ℤ_iff z _).0 e)) (narrow-fits t z))
    | inr e ↦ e ∙ sym h
  ]
]

pub half_mono : (t1 t2 : IntType) → at_least_as_wide t1 t2 ≡ true → half t2 ≤ half t1
unfolding at_least_as_wide size_of half
half_mono tinyint t2 w = ground arith
half_mono smallint t2 w = ground arith
half_mono integer t2 w = ground arith
half_mono bigint t2 w = ground arith

pub fits_mono :
    (t1 t2 : IntType) (z : ℤ) → at_least_as_wide t1 t2 ≡ true → fits t2 z ≡ true → fits t1 z ≡ true
unfolding fits
fits_mono t1 t2 z w h = ground (arith, half_mono t1 t2 w)

pub narrower : (t1 t2 : IntType) → at_least_as_wide t1 t2 ≡ false → at_least_as_wide t2 t1 ≡ true
unfolding at_least_as_wide
narrower t1 t2 w = ground arith

promoted_wide :
    (t1 t2 : IntType)
    → (at_least_as_wide (promoted t1 t2) t1 ≡ true) × (at_least_as_wide (promoted t1 t2) t2 ≡ true)
unfolding at_least_as_wide size_of promoted
promoted_wide tinyint t2 = ground arith
promoted_wide smallint t2 = ground arith
promoted_wide integer t2 = ground arith
promoted_wide bigint t2 = ground arith

-- The wider of the two types, and what a template should answer for the exact result z.
unfoldable pub wider : IntType → IntType → IntType
wider t1 t2 = if at_least_as_wide t1 t2 then t1 else t2

pub fits_neither-fits :
    (t1 t2 : IntType) (z : ℤ) → fits_neither t1 t2 z ≡ not (fits (wider t1 t2) z)
unfolding fits_neither wider
fits_neither-fits t1 t2 z =
    rw (same-narrow t1 z, same-narrow t2 z)
      (ground (arith, fits_mono t1 t2 z, fits_mono t2 t1 z, narrower t1 t2))

pub fits_wider-promoted :
    (t1 t2 : IntType) (z : ℤ) → fits (wider t1 t2) z ≡ true → fits (promoted t1 t2) z ≡ true
unfolding wider
fits_wider-promoted t1 t2 z h =
    ground
      (arith, fits_mono (promoted t1 t2) t1 z, fits_mono (promoted t1 t2) t2 z, promoted_wide t1 t2)
