-- ===== src/Util/Invoke.antt =====
-- `invoke` of util/bits/invoke.h: its overloads, and the one that the compiler takes. Types are
-- those of the arguments once references and qualifiers are gone. Bases are public and unambiguous,
-- so that `x.*member` is well formed exactly for an `x` whose class has the member's as a base.
pub mod Standard
pub mod Timed
mod Tests
use concurrency_cpp.Base.{
  ℕ, ◌≡◌, Bool, true, false, ◌&&◌, not, Option, none, some, List, [], ◌∷◌, if◌then◌else◌,
}

-- `named n`: any type but a `std::reference_wrapper`.
pub data Ty : Type 0 where
  named : ℕ → Ty
  reference_wrapper : Ty → Ty

-- What the compiler knows of the program's types: `std::is_base_of`, and the type of `*x`.
pub record Types : Type 0 where
  pub is_base_of : (base derived : Ty) → Bool
  pub pointee : Ty → Option Ty

-- The type of the callable: a pointer to a member of the class `base`, or anything else. `accepts`:
-- the arguments that it can be called with.
pub data Callable : Type 0 where
  member_function : (base : Ty) → (accepts : List Ty → Bool) → Callable
  member_object : (base : Ty) → Callable
  function : (accepts : List Ty → Bool) → Callable

-- The overloads of `_invoke`, in the order of the source, each named for the expression that it
-- evaluates.
pub data Overload : Type 0 where
  call_on_object : Overload  -- (ref.*pmf)(args...)
  call_on_referent : Overload  -- (ref.get().*pmf)(args...)
  call_on_pointee : Overload  -- ((*ptr).*pmf)(args...)
  member_of_object : Overload  -- ref.*pmd
  member_of_referent : Overload  -- ref.get().*pmd
  member_of_pointee : Overload  -- (*ptr).*pmd
  call : Overload  -- f(args...)

-- Substitution fails for every overload, or not for more than one, or the call is of this one.
pub data Resolution : Type 0 where
  no_viable : Resolution
  ambiguous : Resolution
  selected : Overload → Resolution

unfoldable pub is_reference_wrapper : Ty → Bool
is_reference_wrapper (named n) = false
is_reference_wrapper (reference_wrapper t) = true

-- The type of `ref.get()`.
unfoldable pub referent : Ty → Option Ty
referent (named n) = none
referent (reference_wrapper t) = some t

unfoldable pub resolved : List Overload → Resolution
resolved [] = no_viable
resolved (o ∷ []) = selected o
resolved (o ∷ o' ∷ os) = ambiguous

module _ (types : Types) where
  open types use {is_base_of, pointee}

  -- `x.*member` for an expression `x`, where it has a type.
  unfoldable pub has_base : Ty → Option Ty → Bool
  has_base base none = false
  has_base base (some t) = is_base_of base t

  -- The conditions of `enable_if` and the expression in `decltype`, for each overload.
  unfoldable pub object_call_enabled : Callable → List Ty → Bool
  object_call_enabled (member_function base accepts) (t ∷ ts) = is_base_of base t && accepts ts
  object_call_enabled c ts = false

  unfoldable pub referent_call_enabled : Callable → List Ty → Bool
  unfolding is_reference_wrapper referent has_base
  referent_call_enabled (member_function base accepts) (t ∷ ts) =
      is_reference_wrapper t && (has_base base (referent t) && accepts ts)
  referent_call_enabled c ts = false

  unfoldable pub pointee_call_enabled : Callable → List Ty → Bool
  unfolding is_reference_wrapper has_base
  pointee_call_enabled (member_function base accepts) (t ∷ ts) =
      not (is_reference_wrapper t)
      && (not (is_base_of base t) && (has_base base (pointee t) && accepts ts))
  pointee_call_enabled c ts = false

  unfoldable pub object_member_enabled : Callable → List Ty → Bool
  object_member_enabled (member_object base) (t ∷ []) = is_base_of base t
  object_member_enabled c ts = false

  unfoldable pub referent_member_enabled : Callable → List Ty → Bool
  unfolding is_reference_wrapper referent has_base
  referent_member_enabled (member_object base) (t ∷ []) =
      is_reference_wrapper t && has_base base (referent t)
  referent_member_enabled c ts = false

  unfoldable pub pointee_member_enabled : Callable → List Ty → Bool
  unfolding is_reference_wrapper has_base
  pointee_member_enabled (member_object base) (t ∷ []) =
      not (is_reference_wrapper t) && (not (is_base_of base t) && has_base base (pointee t))
  pointee_member_enabled c ts = false

  unfoldable pub call_enabled : Callable → List Ty → Bool
  call_enabled (function accepts) ts = accepts ts
  call_enabled c ts = false

  abbrev pub add_if : Bool → Overload → List Overload → List Overload
  add_if b o os = if b then o ∷ os else os

  -- The overloads for which substitution succeeds.
  unfoldable pub viable : Callable → List Ty → List Overload
  unfolding object_call_enabled referent_call_enabled pointee_call_enabled object_member_enabled
      referent_member_enabled pointee_member_enabled call_enabled
  viable c ts = add_if (object_call_enabled c ts) call_on_object (
      add_if (referent_call_enabled c ts) call_on_referent (
        add_if (pointee_call_enabled c ts) call_on_pointee (
          add_if (object_member_enabled c ts) member_of_object (
            add_if (referent_member_enabled c ts) member_of_referent (
              add_if (pointee_member_enabled c ts) member_of_pointee
                (add_if (call_enabled c ts) call []))))))

  unfoldable pub invoke : Callable → List Ty → Resolution
  unfolding viable resolved
  invoke c ts = resolved (viable c ts)
