-- ===== src/Snapshot/Url.antt =====
-- pkg/snapshot/snapshot.go: the URL of a backup. The parser of net/url is a parameter.
use e2d.Netutil.{split_first}
use e2d.E2db.Key.{filepath_join}
use e2d.Prelude.{
  ◌+◌, Bool, ◌&&◌, ◌||◌, Option, none, some, List, [], ◌∷◌, map, leb, if◌then◌else◌, any, Text,
  codes, str_eq, has_prefix, contains, trim_prefix, invalid_scheme, cannot_parse_url, Result, ok,
  err, panic,
}

-- `Type`
pub data SnapshotType : Type 0 where
  file_type s3_type spaces_type : SnapshotType

-- `URL`
pub record SnapshotUrl : Type 0 where
  pub kind : SnapshotType
  pub bucket : Text
  pub path : Text

-- url.URL
pub record ParsedUrl : Type 0 where
  pub scheme : Text
  pub host : Text
  pub path : Text

-- strings.ToLower on ASCII; a byte of a wider rune stays.
abbrev pub to_lower : Text → Text
to_lower s = map (λ c. if leb b'A' c && leb c b'Z' then c + 32 else c) s

abbrev schemes : List Text
schemes = codes "file://" ∷ codes "s3://" ∷ codes "http://" ∷ codes "https://" ∷ []

unfoldable pub has_valid_scheme : Text → Bool
has_valid_scheme url = any (λ s. has_prefix s url) schemes

abbrev pub default_key : Text
default_key = codes "etcd.snapshot"

key_or_default : Text → Option (Text × Text) → Text × Text
key_or_default s none = (s, default_key)
key_or_default s (some parts) = parts

-- `parseBucketKey`
unfoldable pub parse_bucket_key : Text → Text × Text
unfolding key_or_default
parse_bucket_key s = key_or_default s (split_first b'/' s)

-- The cases of `ParseSnapshotBackupURL` after the URL is parsed
url_by_scheme : Text → ParsedUrl → Result SnapshotUrl
url_by_scheme scheme u =
    if str_eq scheme (codes "file")
    then ok (record { kind = file_type; bucket = []; path = filepath_join (u.host ∷ u.path ∷ []) })
    else if str_eq scheme (codes "s3")
    then (let path = if str_eq u.path [] then default_key else u.path in
        ok (record { kind = s3_type; bucket = u.host; path = trim_prefix (codes "/") path }))
    else if (str_eq scheme (codes "http") || str_eq scheme (codes "https"))
        && contains (codes "digitaloceanspaces") u.host
    then (let bk = parse_bucket_key (trim_prefix (codes "/") u.path) in
        ok (record { kind = spaces_type; bucket = bk.0; path = bk.1 }))
    else err cannot_parse_url

url_of : Result ParsedUrl → Result SnapshotUrl
unfolding url_by_scheme
url_of (ok u) = url_by_scheme (to_lower u.scheme) u
url_of (err e) = err e
url_of panic = panic

-- `ParseSnapshotBackupURL`
unfoldable pub parse_snapshot_backup_url : (Text → Result ParsedUrl) → Text → Result SnapshotUrl
unfolding url_of
parse_snapshot_backup_url parse s =
    if has_valid_scheme s then url_of (parse s) else err invalid_scheme
