-- ===== src/Snapshot/Bucket.antt =====
-- pkg/snapshot/snapshot_aws.go and snapshot_do.go: backups in buckets.
--
-- S3, its downloads and uploads, and the files for downloads are parameters; `S` is what is stored.
use e2d.Providers.Roles.{Metadata, AwsConfig, new_config, new_config_with_role_session}
use e2d.Snapshot.Streams.{Stream}
use e2d.Snapshot.Url.{ParsedUrl, parse_bucket_key}
use e2d.Prelude.{
  ℕ, Option, none, some, [], ◌∷◌, ◌==◌, if◌then◌else◌, Text, codes, trim_prefix, Error, other,
  Result, ok, err, panic, ◌>>=◌,
}

-- The errors of a request: one that was answered with a status, and any other.
pub data RequestError : Type 0 where
  request_failure : ℕ → RequestError
  no_answer : Error → RequestError

pub record Buckets (S : Type 0) : Type 0 where
  -- session.NewSession
  pub session : Option Error
  pub head_bucket : Text → Option RequestError
  -- the errors of making a file and of going back to its beginning
  pub temp_file : Option Error
  pub seek : Option Error
  pub download : Text → Text → S → Result Text
  -- what is stored after an upload of a stream, which may fail
  pub upload : Text → Text → Stream → S → S × Option Error

-- `newAWSConfig`
unfoldable pub new_aws_config : Metadata → Text → Result AwsConfig
new_aws_config m [] = new_config m
new_aws_config m (c ∷ name) = new_config_with_role_session m (c ∷ name)

-- `AmazonSnapshotter`, without its clients
pub record AmazonSnapshotter : Type 0 where
  pub bucket : Text
  pub key : Text

by_status : AmazonSnapshotter → ℕ → Result AmazonSnapshotter
by_status s code =
    if code == 404
    then err (other (codes "bucket does not exist"))
    else if code == 403
    then err (other (codes "access to bucket forbidden"))
    else err (other (codes "bucket could not be accessed"))

-- An error that is no answer of the service is passed over.
by_head : AmazonSnapshotter → Option RequestError → Result AmazonSnapshotter
unfolding by_status
by_head s none = ok s
by_head s (some (request_failure code)) = by_status s code
by_head s (some (no_answer e)) = ok s

module _ {S : Type 0} (b : Buckets S) where
  after_session : Option Error → AmazonSnapshotter → Result AmazonSnapshotter
  unfolding by_head
  after_session (some e) s = err e
  after_session none s = by_head s (b.head_bucket s.bucket)

  -- `newAmazonSnapshotter`
  unfoldable pub new_amazon_snapshotter_with : Text → Text → Result AmazonSnapshotter
  unfolding after_session
  new_amazon_snapshotter_with bucket key =
      after_session b.session (record { bucket = bucket; key = key })

  -- `NewAmazonSnapshotter`
  unfoldable pub new_amazon_snapshotter : Metadata → Text → Text → Text → Result AmazonSnapshotter
  new_amazon_snapshotter m role_session_name bucket key = do
    cfg ← new_aws_config m role_session_name
    new_amazon_snapshotter_with bucket key

  rewound : Option Error → Text → Result Stream
  rewound (some e) t = err e
  rewound none t = ok (record { text = t; fail = none; close = none })

  downloaded : Result Text → Result Stream
  unfolding rewound
  downloaded (ok t) = rewound b.seek t
  downloaded (err e) = err e
  downloaded panic = panic

  to_file : Option Error → Result Text → Result Stream
  unfolding downloaded
  to_file (some e) r = err e
  to_file none r = downloaded r

  -- `AmazonSnapshotter.Load`
  unfoldable pub amazon_load : AmazonSnapshotter → S → Result Stream
  unfolding to_file
  amazon_load s stored = to_file b.temp_file (b.download s.bucket s.key stored)

  -- `AmazonSnapshotter.Save`
  unfoldable pub amazon_save : AmazonSnapshotter → Stream → S → S × Option Error
  amazon_save s r stored = b.upload s.bucket s.key r stored

-- `parseSpacesURL`: the endpoint, the bucket and the key
unfoldable pub parse_spaces_url : (Text → Result ParsedUrl) → Text → Result (Text × Text × Text)
parse_spaces_url parse s = do
  u ← parse s
  ok (let bk = parse_bucket_key (trim_prefix (codes "/") u.path) in (u.host, bk.0, bk.1))

-- The configuration of `NewDigitalOceanSnapshotter`: its endpoint, its region and its keys
pub record SpacesConfig : Type 0 where
  pub endpoint : Text
  pub region : Text
  pub access_key : Text
  pub secret_key : Text

unfoldable pub spaces_config : Text → Text → Text → SpacesConfig
spaces_config endpoint access_key secret_key = record {
  endpoint = endpoint;
  region = codes "us-east-1";
  access_key = access_key;
  secret_key = secret_key;
}

-- `NewDigitalOceanSnapshotter`, where the buckets depend on the configuration
unfoldable pub new_digital_ocean_snapshotter :
    {S : Type 0}
    → (SpacesConfig → Buckets S)
    → (Text → Result ParsedUrl)
    → Text
    → Text
    → Text
    → Result AmazonSnapshotter
new_digital_ocean_snapshotter buckets parse spaces_url access_key secret_key = do
  parsed ← parse_spaces_url parse spaces_url
  new_amazon_snapshotter_with (buckets (spaces_config parsed.0 access_key secret_key)) parsed.1
      parsed.2
