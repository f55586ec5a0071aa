-- ===== src/Util/LruCache.antt =====
-- `LRUCache` of util/lru_cache.h: a hash map whose nodes are linked, most recently used first.
-- A `PairType*` is named by the key of the pair that it points at: `std::unordered_map` holds one
-- pair for a key and never moves it. `none` is `nullptr`; a pointer whose pair is erased dangles.
pub mod Chain
pub mod Relinking
pub mod Links
pub mod Spec
pub mod Nodes
pub mod Refinement
pub mod Storing
pub mod History
mod Tests
use concurrency_cpp.Base.{
  ℕ, ◌+◌, ◌-◌, ◌%◌, ◌^◌, Bool, true, false, Option, none, some, ltb, if◌then◌else◌,
}
use concurrency_cpp.Base.Partial.{◌>>=◌}
use mathlib.Core.Logic.{ite}

-- `struct Entry`
pub record Entry (K V : Type 0) : Type 0 where
  pub value : V
  pub parent : Option K
  pub child : Option K

-- `std::unordered_map<TK, Entry>`: the pairs it holds, and how many they are.
pub record Mem (K V : Type 0) : Type 0 where
  pub cells : K → Option (Entry K V)
  pub size : ℕ

pub record Cache (K V : Type 0) : Type 0 where
  pub mem : Mem K V
  pub capacity : ℕ
  pub head : Option K
  pub tail : Option K

-- The constructor keeps `size_t capacity` in a `uint32_t`.
unfoldable pub make : {K V : Type 0} → ℕ → Cache K V
make capacity = record {
  mem = record { cells = λ k. none; size = 0 };
  capacity = capacity % 2 ^ 32;
  head = none;
  tail = none;
}

-- `Entry(const TV&)` and `Entry(TV&&)`
abbrev pub entry : {K V : Type 0} → V → Entry K V
entry v = record { value = v; parent = none; child = none }

-- `Hash` does not show; `Eql` is the decision `eq`.
module _ {K V : Type 0} (eq : Discrete K) where
  abbrev pub put : (K → Option (Entry K V)) → K → Option (Entry K V) → K → Option (Entry K V)
  put f k n j = ite (eq k j) n (f j)

  abbrev pub find : K → Mem K V → Option (Entry K V)
  find k m = m.cells k

  unfoldable pub emplace : K → V → Mem K V → Mem K V
  emplace k v m = elim (find k m) [
    | none ↦ record { cells = put m.cells k (some (entry v)); size = m.size + 1 }
    | some _ ↦ m
  ]

  unfoldable pub erase_node : K → Mem K V → Mem K V
  erase_node k m = elim (find k m) [
    | none ↦ m
    | some _ ↦ record { cells = put m.cells k none; size = m.size - 1 }
  ]

  -- Writes through a pointer to the pair of `k`.
  unfoldable pub set_value : K → V → Mem K V → Option (Mem K V)
  set_value k v m = do
    n ← find k m
    some (record m { cells = put m.cells k (some (record n { value = v })) })

  unfoldable pub set_parent : K → Option K → Mem K V → Option (Mem K V)
  set_parent k p m = do
    n ← find k m
    some (record m { cells = put m.cells k (some (record n { parent = p })) })

  unfoldable pub set_child : K → Option K → Mem K V → Option (Mem K V)
  set_child k p m = do
    n ← find k m
    some (record m { cells = put m.cells k (some (record n { child = p })) })

  unfoldable pub list_insert_head : K → Cache K V → Option (Cache K V)
  unfolding set_parent set_child
  list_insert_head e c = elim c.head [
    | none ↦ (do
      m ← set_parent e none c.mem
      m' ← set_child e none m
      some (record c { mem = m'; head = some e; tail = some e }))
    | some h ↦ (do
      m ← set_parent e none c.mem
      m' ← set_child e (some h) m
      m'' ← set_parent h (some e) m'
      some (record c { mem = m''; head = some e }))
  ]

  -- The two halves of `list_release`: what pointed at `e` from the front, and from the back.
  unfoldable pub release_front : K → Cache K V → Option (Cache K V)
  unfolding set_child
  release_front e c = do
    n ← find e c.mem
    elim n.parent [
      | none ↦ some (record c { head = n.child })
      | some p ↦ (do m ← set_child p n.child c.mem; some (record c { mem = m }))
    ]

  unfoldable pub release_back : K → Cache K V → Option (Cache K V)
  unfolding set_parent
  release_back e c = do
    n ← find e c.mem
    elim n.child [
      | none ↦ some (record c { tail = n.parent })
      | some q ↦ (do m ← set_parent q n.parent c.mem; some (record c { mem = m }))
    ]

  unfoldable pub list_release : K → Cache K V → Option (Cache K V)
  unfolding release_front release_back
  list_release e c = do c' ← release_front e c; release_back e c'

  unfoldable pub list_move_to_head : K → Cache K V → Option (Cache K V)
  list_move_to_head e c = do c' ← list_release e c; list_insert_head e c'

  -- The assertion fails on an empty list.
  unfoldable pub gc1 : Cache K V → Option (Cache K V)
  gc1 c = do e ← c.tail; c' ← list_release e c; some (record c' { mem = erase_node e c'.mem })

  unfoldable pub insert_new : K → V → Cache K V → Option (Cache K V)
  insert_new key value c = do
    c' ← list_insert_head key (record c { mem = emplace key value c.mem })
    if ltb c'.capacity c'.mem.size then gc1 c' else some c'

  unfoldable pub overwrite : K → V → Cache K V → Option (Cache K V)
  overwrite key value c = do
    m ← set_value key value c.mem
    list_move_to_head key (record c { mem = m })

  unfoldable pub set : K → V → Cache K V → Option (Cache K V)
  set key value c = elim (find key c.mem) [
    | none ↦ insert_new key value c
    | some _ ↦ overwrite key value c
  ]

  -- `get` and `get_copy`: `none` where the key is not found, else the value that is pointed at or
  -- copied.
  unfoldable pub get : K → Cache K V → Option (Option V × Cache K V)
  get key c = elim (find key c.mem) [
    | none ↦ some (none, c)
    | some _ ↦ (do c' ← list_move_to_head key c; n ← find key c'.mem; some (some n.value, c'))
  ]

  -- `get_copy_pointee`: `deref` reads what the stored smart pointer points at.
  unfoldable pub get_copy_pointee :
      {P : Type 0} → (V → Option P) → K → Cache K V → Option (Option P × Cache K V)
  get_copy_pointee deref key c = elim (find key c.mem) [
    | none ↦ some (none, c)
    | some _ ↦ (do
      c' ← list_move_to_head key c
      n ← find key c'.mem
      pointee ← deref n.value
      some (some pointee, c'))
  ]

  unfoldable pub get_move : K → Cache K V → Option (Option V × Cache K V)
  get_move key c = elim (find key c.mem) [
    | none ↦ some (none, c)
    | some n ↦ (do
      c' ← list_release key c
      some (some n.value, record c' { mem = erase_node key c'.mem }))
  ]

  unfoldable pub has_key : K → Cache K V → Bool
  has_key key c = elim (find key c.mem) [ none ↦ false | some _ ↦ true ]

  unfoldable pub erase : K → Cache K V → Option (Bool × Cache K V)
  erase key c = elim (find key c.mem) [
    | none ↦ some (false, c)
    | some _ ↦ (do c' ← list_release key c; some (true, record c' { mem = erase_node key c'.mem }))
  ]

unfoldable pub clear : {K V : Type 0} → Cache K V → Cache K V
clear c = record c { mem = record { cells = λ k. none; size = 0 }; head = none; tail = none }
