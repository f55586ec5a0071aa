-- ===== src/Util/MakeUnique.antt =====
-- `make_unique` of util/bits/make_unique.h: its overloads, and the one that the compiler takes.
mod Tests
use concurrency_cpp.Base.{
  ℕ, ◌≡◌, refl, Bool, true, false, ◌&&◌, not, Option, none, some, List, [], ◌∷◌, if◌then◌else◌,
  replicate, ap, length, length-replicate,
}

-- The type that is asked for. `size`: of an array of known bound.
pub data Ty : Type 0 where
  object : Ty
  array : Ty
  array_known : (size : ℕ) → Ty

unfoldable pub is_array : Ty → Bool
is_array object = false
is_array array = true
is_array (array_known size) = true

unfoldable pub is_array_known_bound : Ty → Bool
is_array_known_bound (array_known size) = true
is_array_known_bound t = false

-- What a call gives: a pointer to an object made from the arguments, or to an array, whose elements
-- are numbers or indeterminate; or it does not compile.
pub data Made : Type 0 where
  from_arguments : List ℕ → Made
  elements : List (Option ℕ) → Made
  deleted : Made
  no_overload : Made
  ambiguous : Made

-- `new T[size]`: elements of a type like `int` are not initialized.
unfoldable pub new_array : ℕ → Made
new_array size = elements (replicate size none)

-- The second overload takes one argument, the size.
unfoldable pub sized : List ℕ → Bool
sized (n ∷ []) = true
sized args = false

unfoldable pub size_of : List ℕ → ℕ
size_of [] = 0
size_of (n ∷ args) = n

-- The overloads for which `enable_if` has a type.
unfoldable pub viable : Ty → List ℕ → List Made
unfolding is_array is_array_known_bound new_array sized size_of
viable t args =
    let third = if is_array_known_bound t then deleted ∷ [] else [] in
    let second =
      if is_array t && (not (is_array_known_bound t) && sized args)
      then new_array (size_of args) ∷ third
      else third in
    if not (is_array t) then from_arguments args ∷ second else second

unfoldable pub resolved : List Made → Made
resolved [] = no_overload
resolved (m ∷ []) = m
resolved (m ∷ m' ∷ ms) = ambiguous

unfoldable pub make_unique : Ty → List ℕ → Made
unfolding viable resolved
make_unique t args = resolved (viable t args)

-- With the elements set to 0.
unfoldable pub initialized : Made → Made
initialized (elements cells) = elements (replicate (length cells) (some 0))
initialized m = m

-- `std::make_unique` of C++14.
unfoldable pub standard_make_unique : Ty → List ℕ → Made
standard_make_unique object args = from_arguments args
standard_make_unique array (n ∷ []) = elements (replicate n (some 0))
standard_make_unique array args = no_overload
standard_make_unique (array_known size) args = deleted

-- For every type and arguments, `make_unique` is the one of the standard, but for the elements of an
-- array, which the standard sets to 0.
pub make_unique-standard_make_unique :
    (t : Ty) (args : List ℕ) → initialized (make_unique t args) ≡ standard_make_unique t args
unfolding make_unique initialized standard_make_unique
make_unique-standard_make_unique object args = refl
make_unique-standard_make_unique array [] = refl
make_unique-standard_make_unique array (n ∷ []) =
    ap (λ k. elements (replicate k (some 0))) (length-replicate n none)
make_unique-standard_make_unique array (n ∷ k ∷ args) = refl
make_unique-standard_make_unique (array_known size) args = refl
