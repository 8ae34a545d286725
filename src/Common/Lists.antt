-- ===== src/Common/Lists.antt =====
-- Lists measured by native numbers, membership as a Boolean test, and distinctness by recursion.
use Prim.Native.Nat.{ℕ, zero, suc, ◌+◌}
use mathlib.Core.Path.{◌≡◌, refl}
use mathlib.Core.Logic.{◌≢◌}
use mathlib.Core.Bool.{Bool, true, false, ◌||◌}
use mathlib.Core.List.{List, [], ◌∷◌, ◌++◌}
use mathlib.Core.Option.{Option, none, some}
use native.Mathlib.Omega.{arith}
use lab.Common.Tests.{◌==◌, if◌then◌else◌}

module _ {ℓ} {A : Type ℓ} where
  abbrev pub length : List A → ℕ
  length [] = 0
  length (x ∷ xs) = suc (length xs)

  abbrev pub get_elem? : List A → ℕ → Option A
  get_elem? [] i = none
  get_elem? (x ∷ xs) zero = some x
  get_elem? (x ∷ xs) (suc i) = get_elem? xs i

  pub length-append : (xs ys : List A) → length (xs ++ ys) ≡ length xs + length ys
  length-append [] ys = omega arith
  length-append (x ∷ xs) ys = omega (arith, length-append xs ys)

-- `x` is an element of the list.
unfoldable pub contains : ℕ → List ℕ → Bool
contains x [] = false
contains x (y ∷ ys) = (x == y) || contains x ys

-- Drops every occurrence.
unfoldable pub remove : ℕ → List ℕ → List ℕ
remove x [] = []
remove x (y ∷ ys) = if x == y then remove x ys else y ∷ remove x ys

-- No element stands twice.
abbrev pub Distinct : List ℕ → Type 0
Distinct [] = Unit {0}
Distinct (x ∷ xs) = (contains x xs ≡ false) × Distinct xs

pub contains-append :
    (x : ℕ) (xs ys : List ℕ) → contains x (xs ++ ys) ≡ (contains x xs || contains x ys)
unfolding contains
contains-append x [] ys = refl
contains-append x (y ∷ xs) ys = ground (arith, contains-append x xs ys)

pub contains-remove_self : (x : ℕ) (xs : List ℕ) → contains x (remove x xs) ≡ false
unfolding contains remove
contains-remove_self x [] = refl
contains-remove_self x (y ∷ xs) = ground (arith, contains-remove_self x xs)

pub contains-remove_ne : (x y : ℕ) (xs : List ℕ) → x ≢ y → contains x (remove y xs) ≡ contains x xs
unfolding contains remove
contains-remove_ne x y [] h = refl
contains-remove_ne x y (z ∷ xs) h = ground (arith, contains-remove_ne x y xs h)

pub remove_absent : (x : ℕ) (xs : List ℕ) → contains x xs ≡ false → remove x xs ≡ xs
unfolding contains remove
remove_absent x [] h = refl
remove_absent x (y ∷ xs) h = ground (arith, remove_absent x xs)

pub remove-append : (x : ℕ) (xs ys : List ℕ) → remove x (xs ++ ys) ≡ remove x xs ++ remove x ys
unfolding remove
remove-append x [] ys = refl
remove-append x (y ∷ xs) ys = ground (arith, remove-append x xs ys)

pub remove-Distinct : (x : ℕ) (xs : List ℕ) → Distinct xs → Distinct (remove x xs)
unfolding remove contains
remove-Distinct x [] d = tt
remove-Distinct x (y ∷ xs) d = ground (arith, remove-Distinct x xs d.1, contains-remove_ne y x xs)

-- The last element.
unfoldable pub last_of : List ℕ → Option ℕ
last_of [] = none
last_of (x ∷ []) = some x
last_of (x ∷ y ∷ ys) = last_of (y ∷ ys)

pub contains-last_of : (xs : List ℕ) (x : ℕ) → last_of xs ≡ some x → contains x xs ≡ true
unfolding last_of contains
contains-last_of [] x h = cc
contains-last_of (y ∷ []) x h = ground arith
contains-last_of (y ∷ z ∷ ys) x h = ground (arith, contains-last_of (z ∷ ys) x h)

pub last_of-append : (xs : List ℕ) (x : ℕ) → last_of (xs ++ x ∷ []) ≡ some x
unfolding last_of
last_of-append [] x = refl
last_of-append (y ∷ []) x = refl
last_of-append (y ∷ z ∷ ys) x = last_of-append (z ∷ ys) x

pub length-remove :
    (x : ℕ) (xs : List ℕ)
    → contains x xs ≡ true
    → Distinct xs
    → suc (length (remove x xs)) ≡ length xs
unfolding contains remove
length-remove x [] h d = cc
length-remove x (y ∷ xs) h d = ground (arith, remove_absent x xs, length-remove x xs)

pub contains_nil : (x : ℕ) → contains x [] ≡ false
unfolding contains
contains_nil x = refl

pub contains_self : (x : ℕ) → contains x (x ∷ []) ≡ true
unfolding contains
contains_self x = ground arith
