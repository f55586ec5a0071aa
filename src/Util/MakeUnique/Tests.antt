-- ===== src/Util/MakeUnique/Tests.antt =====
-- Some calls of `make_unique`.
use concurrency_cpp.Base.{◌≡◌, refl, none, [], ◌∷◌}
use concurrency_cpp.Util.MakeUnique.{
  object, array, array_known, from_arguments, elements, deleted, make_unique,
}

made_object : make_unique object (4 ∷ 5 ∷ []) ≡ from_arguments (4 ∷ 5 ∷ [])
unfolding make_unique
made_object = refl

made_array : make_unique array (2 ∷ []) ≡ elements (none ∷ none ∷ [])
unfolding make_unique
made_array = refl

not_made : make_unique (array_known 2) [] ≡ deleted
unfolding make_unique
not_made = refl
