-- ===== src/Util/Invoke/Standard.antt =====
-- `invoke` against the definition of `INVOKE` in the C++17 standard, which tries the forms in order.
use concurrency_cpp.Base.{◌≡◌, refl, Bool, true, false, ◌&&◌, List, [], ◌∷◌, arith, if◌then◌else◌}
use concurrency_cpp.Util.Invoke.{
  Ty, named, reference_wrapper, Types, Callable, member_function, member_object, function, Overload,
  call_on_object, call_on_referent, call_on_pointee, member_of_object, member_of_referent,
  member_of_pointee, call, Resolution, no_viable, ambiguous, selected, is_reference_wrapper,
  referent, has_base, invoke,
}

abbrev well_formed : Bool → Overload → Resolution
well_formed b o = if b then selected o else no_viable

module _ (types : Types) where
  open types use {is_base_of, pointee}

  unfoldable pub standard_invoke : Callable → List Ty → Resolution
  unfolding is_reference_wrapper referent has_base
  standard_invoke (member_function base accepts) [] = no_viable
  standard_invoke (member_function base accepts) (t ∷ ts) =
      if is_base_of base t
      then well_formed (accepts ts) call_on_object
      else if is_reference_wrapper t
      then well_formed (has_base types base (referent t) && accepts ts) call_on_referent
      else well_formed (has_base types base (pointee t) && accepts ts) call_on_pointee
  standard_invoke (member_object base) [] = no_viable
  standard_invoke (member_object base) (t ∷ []) =
      if is_base_of base t
      then well_formed true member_of_object
      else if is_reference_wrapper t
      then well_formed (has_base types base (referent t)) member_of_referent
      else well_formed (has_base types base (pointee t)) member_of_pointee
  standard_invoke (member_object base) (t ∷ t' ∷ ts) = no_viable
  standard_invoke (function accepts) ts = well_formed (accepts ts) call

  -- The first argument is a `reference_wrapper` that itself has the member's class as a base, and so
  -- has what it refers to.
  unfoldable pub both_have : Ty → Ty → Bool
  unfolding is_reference_wrapper referent has_base
  both_have base t =
      is_base_of base t && (is_reference_wrapper t && has_base types base (referent t))

  unfoldable pub overlaps : Callable → List Ty → Bool
  unfolding both_have
  overlaps (member_function base accepts) (t ∷ ts) = both_have base t && accepts ts
  overlaps (member_object base) (t ∷ []) = both_have base t
  overlaps c ts = false

  -- For every callable and arguments, `invoke` is what `INVOKE` of the standard is, the same
  -- expression where that has one and ill formed where it has none; but it is ambiguous where the
  -- first argument is a reference wrapper that has the member's class as a base and refers to an
  -- object that has it too, and the other arguments fit.
  pub invoke-standard_invoke :
      (c : Callable) (ts : List Ty)
      → invoke types c ts ≡ (if overlaps c ts then ambiguous else standard_invoke c ts)
  unfolding invoke standard_invoke overlaps
  invoke-standard_invoke (member_function base accepts) [] = refl
  invoke-standard_invoke (member_function base accepts) (named n ∷ ts) = ground arith
  invoke-standard_invoke (member_function base accepts) (reference_wrapper t ∷ ts) = ground arith
  invoke-standard_invoke (member_object base) [] = refl
  invoke-standard_invoke (member_object base) (named n ∷ []) = ground arith
  invoke-standard_invoke (member_object base) (reference_wrapper t ∷ []) = ground arith
  invoke-standard_invoke (member_object base) (t ∷ t' ∷ ts) = ground arith
  invoke-standard_invoke (function accepts) ts = ground arith
