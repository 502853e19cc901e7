-- ===== src/E2db/Db/Tests.antt =====
-- The settings and the keys of a database (pkg/e2db/config.go and db.go).
use e2d.E2db.Db.{with_encryption, with_encryption-prefix, trim_slashes}
use e2d.Prelude.{◌≡◌, refl, ◌++◌, Text, codes, str_eq}

trims : trim_slashes (codes "//_e2d/") ≡ codes "_e2d"
unfolding trim_slashes str_eq
trims = refl

abbrev block : Text
block = codes "0123456789abcdef0123456789abcdef"

with_encryption-prefix_example :
    (with_encryption (λ t. codes "digest") (block ++ codes "one") ≡ block)
    × (with_encryption (λ t. codes "digest") (block ++ codes "one")
        ≡ with_encryption (λ t. codes "digest") (block ++ codes "two"))
with_encryption-prefix_example =
    with_encryption-prefix (λ t. codes "digest") block (codes "one") (codes "two") refl
