-- ===== src/E2db/Model/Kinds.antt =====
-- What the tags make of a field (pkg/e2db/model.go).
use e2d.E2db.Model.{Tag, has_tag, is_primary_key, is_index, no_index, primary_key, index_type}
use e2d.Prelude.{◌≡◌, refl, ◌↔◌, true, false, ◌||◌, List, [], ◌∷◌, arith, Text, codes}

has_tag_two :
    (a b : Text) (tags : List Tag)
    → has_tag (a ∷ b ∷ []) tags ≡ (has_tag (a ∷ []) tags || has_tag (b ∷ []) tags)
unfolding has_tag
has_tag_two a b [] = refl
has_tag_two a b (t ∷ ts) = ground (arith, has_tag_two a b ts)

is_primary_key_lem :
    (tags : List Tag) → is_primary_key tags ≡ has_tag (codes "increment" ∷ codes "id" ∷ []) tags
unfolding is_primary_key has_tag
is_primary_key_lem [] = refl
is_primary_key_lem (t ∷ ts) = ground (arith, is_primary_key_lem ts)

-- A field is an index exactly if its index type is one, and it is the primary key exactly if that
-- is its index type: the two readings of the tags, by loop and by switch, agree.
pub index_type_iff :
    (tags : List Tag)
    → ((is_index tags ≡ false) ↔ (index_type tags ≡ no_index))
      × ((is_primary_key tags ≡ true) ↔ (index_type tags ≡ primary_key))
unfolding is_index index_type
index_type_iff tags = (
  ground (arith, is_primary_key_lem tags, has_tag_two (codes "index") (codes "unique") tags),
  ground (arith, is_primary_key_lem tags),
)
