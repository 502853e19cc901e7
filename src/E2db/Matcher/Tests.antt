-- ===== src/E2db/Matcher/Tests.antt =====
-- Matchers on a concrete row.
use e2d.E2db.Values.{str}
use e2d.E2db.Model.{Field}
use e2d.E2db.Matcher.{Matchers, end, more, field_eq}
use e2d.Prelude.{List, [], ◌∷◌, codes}

abbrev row : List Field
row = record { def = record { name = codes "n"; tags = [] }; value = str (codes "x") } ∷ []

abbrev by_name : Matchers
by_name = more (field_eq (codes "n") (str (codes "x"))) end
