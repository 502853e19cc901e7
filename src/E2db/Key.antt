-- ===== src/E2db/Key.antt =====
-- pkg/e2db/key/key.go: the keys under which rows, indexes and tables are stored.
pub mod Paths
pub mod Hex
pub mod Layout
pub mod Tables
mod Tests
use e2d.Prelude.{
  ℕ, ◌+◌, ◌/◌, ◌%◌, Bool, true, false, ◌||◌, List, [], ◌∷◌, ◌++◌, ltb, any, ◌==◌, if◌then◌else◌,
  Text, codes, str_eq, has_prefix,
}

-- A byte in front of the pieces of what follows it.
with_first : Bool → ℕ → List Text → List Text
with_first true c pieces = [] ∷ pieces
with_first false c [] = (c ∷ []) ∷ []
with_first false c (p ∷ pieces) = (c ∷ p) ∷ pieces

-- strings.Split(s, "/"): the pieces between the slashes, one at least.
unfoldable pub split_slash : Text → List Text
unfolding with_first
split_slash [] = [] ∷ []
split_slash (c ∷ s) = with_first (c == b'/') c (split_slash s)

-- strings.Join(parts, "/")
unfoldable pub join_slash : List Text → Text
join_slash [] = []
join_slash (s ∷ []) = s
join_slash (s ∷ t ∷ rest) = s ++ b'/' ∷ join_slash (t ∷ rest)

-- `out` without its last piece; `..` cannot be undone, and has no effect at the root.
step_back : Bool → List Text → List Text
step_back rooted [] = if rooted then [] else codes ".." ∷ []
step_back rooted (p ∷ []) = if str_eq p (codes "..") then p ∷ codes ".." ∷ [] else []
step_back rooted (p ∷ q ∷ out) = p ∷ step_back rooted (q ∷ out)

unfoldable pub resolve : Bool → List Text → List Text → List Text
unfolding step_back
resolve rooted out [] = out
resolve rooted out (p ∷ ps) =
    let next =
      if str_eq p [] || str_eq p (codes ".")
      then out
      else if str_eq p (codes "..")
      then step_back rooted out
      else out ++ p ∷ [] in
    resolve rooted next ps

render : Bool → List Text → Text
unfolding join_slash
render true out = b'/' ∷ join_slash out
render false [] = codes "."
render false (p ∷ out) = join_slash (p ∷ out)

is_rooted : Text → Bool
is_rooted [] = false
is_rooted (c ∷ s) = c == b'/'

-- filepath.Clean
unfoldable pub clean : Text → Text
unfolding is_rooted render
clean path = render (is_rooted path) (resolve (is_rooted path) [] (split_slash path))

-- The part of a path before its last slash, that slash included.
up_to_slash : Text → Text
up_to_slash [] = []
up_to_slash (c ∷ s) =
    let rest = up_to_slash s in if any (λ x. x == b'/') (c ∷ s) then c ∷ rest else []

-- filepath.Dir
unfoldable pub filepath_dir : Text → Text
unfolding up_to_slash
filepath_dir path = clean (up_to_slash path)

-- filepath.Join: the leading empty parts are dropped, and nothing is the empty path.
unfoldable pub filepath_join : List Text → Text
filepath_join [] = []
filepath_join ([] ∷ parts) = filepath_join parts
filepath_join ((c ∷ p) ∷ parts) = clean (join_slash ((c ∷ p) ∷ parts))

-- `join`
unfoldable pub join : List Text → Text
join parts =
    let path = filepath_join parts in if has_prefix (codes "/") path then path else b'/' ∷ path

abbrev pub index_prefix : Text
index_prefix = codes "_index"

abbrev pub table_prefix : Text
table_prefix = codes "_table"

hex_digit : ℕ → ℕ
hex_digit n = if ltb n 10 then 48 + n else 87 + n

-- fmt.Sprintf("%x", …)
unfoldable pub hex : Text → Text
unfolding hex_digit
hex [] = []
hex (b ∷ bs) = hex_digit (b / 16) ∷ hex_digit (b % 16) ∷ hex bs

unfoldable pub hidden : Text → Text
hidden model = join (model ∷ codes "_" ∷ [])

unfoldable pub row_id : Text → Text → Text
row_id model key = join (model ∷ key ∷ [])

unfoldable pub table : Text → Text
table model = join (model ∷ []) ++ codes "/"

unfoldable pub table_def : Text → Text
table_def model = join (model ∷ table_prefix ∷ [])

unfoldable pub table_lock : Text → Text
table_lock model = join (model ∷ table_prefix ∷ codes "lock" ∷ [])

unfoldable pub increment : Text → Text → Text
increment model field = join (model ∷ table_prefix ∷ field ∷ codes "last" ∷ [])

-- `sha512` is `crypto/sha512`: `h.Sum(b)` appends to `b` the digest of what was written to `h`.
module _ (sha512 : Text → Text) where
  -- `Hash`: nothing is written to `h`, so its sum is `s` followed by the digest of nothing.
  unfoldable pub hash : Text → Text
  hash s = hex (s ++ sha512 [])

  unfoldable pub index : Text → Text → Text → Text → Text
  index model field value id = join (model ∷ index_prefix ∷ field ∷ hash value ∷ id ∷ [])

  unfoldable pub indexes : Text → Text → Text → Text
  indexes model field value = join (model ∷ index_prefix ∷ field ∷ hash value ∷ [])

  unfoldable pub unique : Text → Text → Text → Text
  unique model field value = join (model ∷ index_prefix ∷ field ∷ hash value ∷ [])
