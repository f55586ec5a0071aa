-- ===== src/Util/RvalueWrapper.antt =====
-- `RValueWrapper` and `rval` of util/bits/rvalue_wrapper.h, and a functor that `std::bind` makes with
-- such a wrapper.
mod Tests
use concurrency_cpp.Base.{ℕ, zero, suc, ◌≡◌, refl, sym, ◌∙◌, ap, List, [], ◌∷◌, replicate}

-- What a variable of type `T` holds: a value, or what a move constructor leaves.
pub data Slot (T : Type 0) : Type 0 where
  holding : T → Slot T
  moved_from : Slot T

pub record RvalueWrapper (T : Type 0) : Type 0 where
  pub t : Slot T

module _ {T : Type 0} where
  -- The constructor, and what it leaves of its argument.
  unfoldable pub make : Slot T → RvalueWrapper T × Slot T
  make source = (record { t = source }, moved_from)

  unfoldable pub copy_from : RvalueWrapper T → RvalueWrapper T
  copy_from rhs = rhs

  -- The new wrapper, and what becomes of the old one.
  unfoldable pub move_from : RvalueWrapper T → RvalueWrapper T × RvalueWrapper T
  move_from rhs = (rhs, record rhs { t = moved_from })

  unfoldable pub copy_assign : RvalueWrapper T → RvalueWrapper T → RvalueWrapper T
  copy_assign w rhs = record w { t = rhs.t }

  unfoldable pub move_assign : RvalueWrapper T → RvalueWrapper T → RvalueWrapper T × RvalueWrapper T
  move_assign w rhs = (record w { t = rhs.t }, record rhs { t = moved_from })

  -- `operator()`: a reference to the slot, for the parameter `T p` of a function, which takes what
  -- is there.
  unfoldable pub call : RvalueWrapper T → Slot T × RvalueWrapper T
  call w = (w.t, record w { t = moved_from })

  -- `rval(T &&)`, and what it leaves of its argument.
  unfoldable pub rval : Slot T → RvalueWrapper T × Slot T
  unfolding make
  rval source = make source

  -- `rval(T &)`: the argument is copied, and the copy is moved into the wrapper.
  unfoldable pub rval_copy : Slot T → RvalueWrapper T × Slot T
  unfolding make
  rval_copy source = ((make source).0, source)

  -- A wrapper on its way into a functor, and with the functor, is moved.
  unfoldable pub moved : ℕ → RvalueWrapper T → RvalueWrapper T
  unfolding move_from
  moved zero w = w
  moved (suc n) w = moved n (move_from w).0

  -- The functor of `std::bind(f, w)` is called `n` times: what `f` gets each time.
  unfoldable pub bound_calls : ℕ → RvalueWrapper T → List (Slot T)
  unfolding call
  bound_calls zero w = []
  bound_calls (suc n) w = (call w).0 ∷ bound_calls n (call w).1

  moved_lem : (n : ℕ) (w : RvalueWrapper T) → moved n w ≡ w
  unfolding moved
  moved_lem zero w = refl
  moved_lem (suc n) w = moved_lem n w

  bound_calls_empty :
      (n : ℕ) → bound_calls n (record { t = moved_from }) ≡ replicate {A = Slot T} n moved_from
  unfolding bound_calls
  bound_calls_empty zero = refl
  bound_calls_empty (suc n) = ap (λ xs. moved_from ∷ xs) (bound_calls_empty n)

  -- A functor that is bound to an argument wrapped by `rval`, and moved any number of times, hands
  -- on what the argument held when it is first called, and nothing after that; an rvalue is moved from
  -- when it is wrapped, and an lvalue keeps what it holds.
  pub rval-bound_calls :
      (x : Slot T) (moves later : ℕ)
      → (bound_calls (suc later) (moved moves (rval x).0) ≡ x ∷ replicate later moved_from)
        × ((rval x).1 ≡ moved_from)
        × (bound_calls (suc later) (moved moves (rval_copy x).0) ≡ x ∷ replicate later moved_from)
        × ((rval_copy x).1 ≡ x)
  unfolding bound_calls rval rval_copy
  rval-bound_calls x moves later =
      let first : bound_calls (suc later) (moved moves (record { t = x }))
          ≡ x ∷ replicate later moved_from =
        ap (bound_calls (suc later)) (moved_lem moves (record { t = x }))
        ∙ ap (λ xs. x ∷ xs) (bound_calls_empty later) in
      (first, refl, first, refl)
