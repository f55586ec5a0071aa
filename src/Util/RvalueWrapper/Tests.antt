-- ===== src/Util/RvalueWrapper/Tests.antt =====
-- A wrapped value is moved into a functor that is called twice.
use concurrency_cpp.Base.{ℕ, ◌≡◌, refl, [], ◌∷◌}
use concurrency_cpp.Util.RvalueWrapper.{
  Slot, holding, moved_from, copy_from, moved, rval, rval_copy, bound_calls, rval-bound_calls,
}

abbrev three : Slot ℕ
three = holding 3

copied : bound_calls 1 (copy_from (rval three).0) ≡ holding 3 ∷ []
unfolding bound_calls rval copy_from
copied = refl

twice :
    (bound_calls 2 (moved 4 (rval three).0) ≡ holding 3 ∷ moved_from ∷ [])
    × ((rval three).1 ≡ moved_from)
    × (bound_calls 2 (moved 4 (rval_copy three).0) ≡ holding 3 ∷ moved_from ∷ [])
    × ((rval_copy three).1 ≡ holding 3)
twice = rval-bound_calls three 4 1
