-- ===== src/E2db/Model/Tests.antt =====
-- The tags of a struct field on a concrete one.
use e2d.E2db.Model.{Tag, parse_tags}
use e2d.Prelude.{◌≡◌, refl, List, [], ◌∷◌, codes}

abbrev two_tags : List Tag
two_tags =
    record { name = codes "unique"; value = [] }
    ∷ record { name = codes "max"; value = codes "7" }
    ∷ []

tags_of_text : parse_tags (codes "unique,max=7") ≡ two_tags
unfolding parse_tags
tags_of_text = refl
