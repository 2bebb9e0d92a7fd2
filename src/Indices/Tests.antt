-- ===== src/Indices/Tests.antt =====
-- Concrete runs of the comparison.
use psi.Prelude.{◌≡◌, refl, List, [], ◌∷◌, arith}
use psi.Prelude.Bytes.{Bytes, concat, contains, bytes_eq}
use psi.Indices.{compare_proc, get_indices_by_items}
use psi.Indices.Positions.{ArePositions, get_indices_by_items-ArePositions}

abbrev provider : List (List Bytes)
provider =
    ((1 ∷ []) ∷ (2 ∷ []) ∷ (3 ∷ []) ∷ (2 ∷ []) ∷ (5 ∷ []) ∷ []) ∷ ((9 ∷ []) ∷ (3 ∷ []) ∷ []) ∷ []

abbrev wanted : List Bytes
wanted = (2 ∷ []) ∷ (3 ∷ []) ∷ []

found : compare_proc wanted 0 (concat provider) ≡ 1 ∷ 2 ∷ 3 ∷ 6 ∷ []
unfolding compare_proc contains bytes_eq
found = refl

get_indices_by_items-ArePositions_example :
    ArePositions wanted (concat provider) (get_indices_by_items 3 provider wanted)
get_indices_by_items-ArePositions_example =
    get_indices_by_items-ArePositions 3 provider wanted (omega arith) (refl, (refl, tt))
