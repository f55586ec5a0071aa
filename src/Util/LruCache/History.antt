-- ===== src/Util/LruCache/History.antt =====
-- Whole histories of an `LRUCache`: any sequence of calls on a new cache.
use mathlib.Core.Option
use mathlib.Core.Path.{subst}
use concurrency_cpp.Base.{
  ℕ, ◌%◌, ◌^◌, ◌<◌, ◌≡◌, refl, Bool, false, Option, some, List, [], ◌∷◌, arith, ◌∙◌, ap,
}
use concurrency_cpp.Base.Partial.{◌>>=◌, bind_some}
use concurrency_cpp.Util.LruCache.{
  Cache, make, set, get, get_copy_pointee, get_move, has_key, erase, clear,
}
use concurrency_cpp.Util.LruCache.Spec.{lookup, remove, touch, store}
use concurrency_cpp.Util.LruCache.Nodes.{Represents}
use concurrency_cpp.Util.LruCache.Refinement.{
  is_some, get-touch, get_copy_pointee-found, get_move-remove, erase-remove, has_key-lookup,
}
use concurrency_cpp.Util.LruCache.Storing.{
  set-store, clear-Represents, make-Represents, make-capacity, clear-capacity,
}

-- A call, and what the caller sees of it.
pub data Call (K V : Type 0) : Type 0 where
  set_call : K → V → Call K V
  get_call : K → Call K V
  pointee_call : K → Call K V
  move_call : K → Call K V
  has_call : K → Call K V
  erase_call : K → Call K V
  clear_call : Call K V

pub data Answer (V P : Type 0) : Type 0 where
  done : Answer V P
  value : Option V → Answer V P
  pointee : Option P → Answer V P
  flag : Bool → Answer V P

-- `deref` reads what a stored pointer points at: the pointers that are stored are not null.
module _ {K V P : Type 0} (eq : Discrete K) (deref : V → P) where
  unfoldable pub call : Call K V → Cache K V → Option (Answer V P × Cache K V)
  call (set_call k v) c = do c' ← set eq k v c; some (done, c')
  call (get_call k) c = do r ← get eq k c; some (value r.0, r.1)
  call (pointee_call k) c = do
    r ← get_copy_pointee eq (λ v. some (deref v)) k c
    some (pointee r.0, r.1)
  call (move_call k) c = do r ← get_move eq k c; some (value r.0, r.1)
  call (has_call k) c = some (flag (has_key eq k c), c)
  call (erase_call k) c = do r ← erase eq k c; some (flag r.0, r.1)
  call clear_call c = some (done, clear c)

  -- The same of the specification, at a capacity.
  unfoldable pub ideal : ℕ → Call K V → List (K × V) → Answer V P × List (K × V)
  ideal n (set_call k v) xs = (done, store eq n k v xs)
  ideal n (get_call k) xs = (value (lookup eq k xs), touch eq k xs)
  ideal n (pointee_call k) xs = (pointee (Option.map deref (lookup eq k xs)), touch eq k xs)
  ideal n (move_call k) xs = (value (lookup eq k xs), remove eq k xs)
  ideal n (has_call k) xs = (flag (is_some (lookup eq k xs)), xs)
  ideal n (erase_call k) xs = (flag (is_some (lookup eq k xs)), remove eq k xs)
  ideal n clear_call xs = (done, [])

  pub call-ideal :
      (q : Call K V) (c : Cache K V) (xs : List (K × V))
      → Represents c xs
      → (c' : Cache K V) × (call q c ≡ some ((ideal c.capacity q xs).0, c'))
        × Represents c' (ideal c.capacity q xs).1
        × (c'.capacity ≡ c.capacity)
  unfolding call ideal
  call-ideal (set_call k v) c xs r =
      let (c', run, r', cap) = set-store eq c k v r in (c', bind_some _ run, r', cap)
  call-ideal (get_call k) c xs r =
      let (c', run, r', cap) = get-touch eq c k r in (c', bind_some _ run, r', cap)
  call-ideal (pointee_call k) c xs r =
      let (c', run, r', cap) = get_copy_pointee-found eq c deref k r in
      (c', bind_some _ run, r', cap)
  call-ideal (move_call k) c xs r =
      let (c', run, r', cap) = get_move-remove eq c k r in (c', bind_some _ run, r', cap)
  call-ideal (has_call k) c xs r =
      (c, ap (λ b. some (flag b, c)) (has_key-lookup eq c k r), r, refl)
  call-ideal (erase_call k) c xs r =
      let (c', run, r', cap) = erase-remove eq c k r in (c', bind_some _ run, r', cap)
  call-ideal clear_call c xs r = (clear c, refl, clear-Represents c, clear-capacity c)

  unfoldable pub calls : List (Call K V) → Cache K V → Option (List (Answer V P) × Cache K V)
  unfolding call
  calls [] c = some ([], c)
  calls (q ∷ qs) c = do r ← call q c; rest ← calls qs r.1; some (r.0 ∷ rest.0, rest.1)

  unfoldable pub ideals : ℕ → List (Call K V) → List (K × V) → List (Answer V P) × List (K × V)
  unfolding ideal
  ideals n [] xs = ([], xs)
  ideals n (q ∷ qs) xs =
      let rest = ideals n qs (ideal n q xs).1 in ((ideal n q xs).0 ∷ rest.0, rest.1)

  -- The cache answers as the specification at capacity `n`, and represents its list.
  abbrev Agrees : ℕ → List (Call K V) → Cache K V → List (K × V) → Type 0
  Agrees n qs c xs =
      (c' : Cache K V) × (calls qs c ≡ some ((ideals n qs xs).0, c'))
      × Represents c' (ideals n qs xs).1

  calls-ideals :
      (qs : List (Call K V)) (c : Cache K V) (xs : List (K × V))
      → Represents c xs
      → Agrees c.capacity qs c xs
  unfolding calls ideals
  calls-ideals [] c xs r = (c, refl, r)
  calls-ideals (q ∷ qs) c xs r =
      let (c1, run, r1, cap1) = call-ideal q c xs r in
      let (c2, run2, r2) =
        subst (λ n. Agrees n qs c1 (ideal c.capacity q xs).1) cap1
          (calls-ideals qs c1 (ideal c.capacity q xs).1 r1) in
      (c2, bind_some _ run ∙ bind_some _ run2, r2)

  -- Any sequence of calls on a new cache, of a capacity that 32 bits hold, meets no undefined
  -- behaviour, and gives the answers of the bounded list that starts empty.
  pub history :
      (qs : List (Call K V)) (n : ℕ)
      → n < 2 ^ 32
      → (c' : Cache K V) × (calls qs (make n) ≡ some ((ideals n qs []).0, c'))
        × Represents c' (ideals n qs []).1
  history qs n small =
      let cap : (make {K = K} {V = V} n).capacity ≡ n = make-capacity K V n ∙ omega arith in
      subst (λ m. Agrees m qs (make n) []) cap (calls-ideals qs (make n) [] (make-Represents n))

  -- At capacity 0 nothing comes onto the list.
  ideal-empty : (q : Call K V) → (ideal 0 q []).1 ≡ []
  unfolding ideal store touch remove lookup
  ideal-empty (set_call k v) = refl
  ideal-empty (get_call k) = refl
  ideal-empty (pointee_call k) = refl
  ideal-empty (move_call k) = refl
  ideal-empty (has_call k) = refl
  ideal-empty (erase_call k) = refl
  ideal-empty clear_call = refl

  ideals-empty : (qs : List (Call K V)) → (ideals 0 qs []).1 ≡ []
  unfolding ideals
  ideals-empty [] = refl
  ideals-empty (q ∷ qs) = ap (λ xs. (ideals 0 qs xs).1) (ideal-empty q) ∙ ideals-empty qs

  -- A capacity whose low 32 bits are 0 is no capacity: any sequence of calls on a new cache made with
  -- it meets no undefined behaviour, and leaves a cache that has no key.
  pub capacity_truncated :
      (qs : List (Call K V)) (n : ℕ)
      → n % 2 ^ 32 ≡ 0
      → (answers : List (Answer V P)) × (c' : Cache K V) × (calls qs (make n) ≡ some (answers, c'))
        × ((k : K) → has_key eq k c' ≡ false)
  unfolding lookup
  capacity_truncated qs n wide =
      let (c', run, r) =
        subst (λ m. Agrees m qs (make n) []) (make-capacity K V n ∙ wide)
          (calls-ideals qs (make n) [] (make-Represents n)) in
      let empty = subst (Represents c') (ideals-empty qs) r in
      (_, c', run, λ k. has_key-lookup eq c' k empty)
