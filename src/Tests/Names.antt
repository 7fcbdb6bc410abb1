-- ===== src/Tests/Names.antt =====
-- Paths and patterns.
use zile.Prelude.{◌≡◌, refl, [], ◌∷◌, ◌++◌, none, some, true}
use zile.Path.{expand_path}
use zile.Path.Plain.{joined, expand_path-joined}
use zile.Search.{no_upper}
use zile.Search.Case.{no_upper_escaped}

-- "/a/../b"
expand_path-joined_example :
    expand_path [] none (λ n. none) (joined ((97, []) ∷ (46, 46 ∷ []) ∷ (98, []) ∷ []))
    ≡ some (true, 47 ∷ 97 ∷ 47 ∷ 46 ∷ 46 ∷ 47 ∷ 98 ∷ [])
expand_path-joined_example =
    expand_path-joined [] none (λ n. none) 97 [] ((46, 46 ∷ []) ∷ (98, []) ∷ [])
      ((refl, (refl, tt)), ((refl, (refl, (refl, tt))), ((refl, (refl, tt)), tt)))

-- "a\wB"
no_upper_escaped_example : no_upper ((97 ∷ []) ++ (92 ∷ 119 ∷ 66 ∷ [])) true ≡ true
no_upper_escaped_example = no_upper_escaped (97 ∷ []) (119 ∷ 66 ∷ []) (refl, tt) (refl, (refl, tt))
