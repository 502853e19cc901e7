-- ===== src/E2db/Rows/Plain.antt =====
-- Rows without encrypted fields.
use e2d.E2db.Crypto.{Gcm}
use e2d.E2db.Values.{Value}
use e2d.E2db.Model.{Tag, Field, has_tag}
use e2d.E2db.Rows.{handle_item_tags, decrypt_tags}
use e2d.Prelude.{
  ◌≡◌, refl, inl, inr, false, Option, List, [], ◌∷◌, arith, Bool-cases, All, Text, codes, str_eq,
  ok,
}

abbrev pub IsPlain : List Field → Type 0
IsPlain fs = All (λ f. has_tag (codes "encrypted" ∷ []) f.tags ≡ false) fs

module _ (gcm : Gcm) (key : Option Text) where
  decrypt_tags-IsPlain :
      (tags : List Tag) (v : Value)
      → has_tag (codes "encrypted" ∷ []) tags ≡ false
      → decrypt_tags gcm key tags v ≡ ok v
  unfolding decrypt_tags has_tag
  decrypt_tags-IsPlain [] v h = refl
  decrypt_tags-IsPlain (t ∷ ts) v h = elim (Bool-cases (str_eq t.name (codes "encrypted"))) [
    | inl e ↦ absurd (ground arith)
    | inr e ↦ rw e (decrypt_tags-IsPlain ts v (ground arith))
  ]

  -- A row without encrypted fields is left as it is.
  pub handle_item_tags-IsPlain :
      (fs : List Field) → IsPlain fs → handle_item_tags gcm key fs ≡ ok fs
  unfolding handle_item_tags
  handle_item_tags-IsPlain [] h = refl
  handle_item_tags-IsPlain (f ∷ fs) h =
      rw (decrypt_tags-IsPlain f.tags f.value h.0, handle_item_tags-IsPlain fs h.1) refl
