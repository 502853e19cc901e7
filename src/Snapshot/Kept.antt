-- ===== src/Snapshot/Kept.antt =====
-- A snapshot that was saved in a bucket is restored (pkg/snapshot/snapshot_aws.go).
use e2d.Snapshot.Streams.{Stream, Cipher, Gzip}
use e2d.Snapshot.Sealed.{IsCipher}
use e2d.Snapshot.Backup.{incoming, file, IsGzip, IsBare}
use e2d.Snapshot.Restored.{sent, sent-file, returned}
use e2d.Snapshot.Bucket.{
  Buckets, AmazonSnapshotter, amazon_load, amazon_save, new_amazon_snapshotter_with, no_answer,
}
use e2d.Prelude.Decimal.{max_int64}
use e2d.Prelude.{◌≤◌, ◌≡◌, refl, sym, ap, ◌∙◌, subst, Bool, none, some, length, Text, Error, ok}

-- What S3 is relied on for: a stream that was uploaded is downloaded.
pub record IsStore {S : Type 0} (b : Buckets S) : Type 0 where
  pub keeps :
      (bucket key t : Text) (stored : S)
      → (b.upload bucket key (file t) stored).1 ≡ none
      → b.download bucket key (b.upload bucket key (file t) stored).0 ≡ ok t

module _ {S : Type 0} (b : Buckets S) (store : IsStore b) where
  loaded-saved :
      (s : AmazonSnapshotter) (t : Text) (stored : S)
      → b.temp_file ≡ none
      → b.seek ≡ none
      → (amazon_save b s (file t) stored).1 ≡ none
      → amazon_load b s (amazon_save b s (file t) stored).0 ≡ ok (file t)
  unfolding amazon_load amazon_save
  loaded-saved s t stored temp seek saved =
      rw (temp, store.keeps s.bucket s.key t stored saved, seek) refl

  module _ (g : Gzip) (c : Cipher) (key iv t : Text) (is_gzip : IsGzip g) (is_cipher : IsCipher c)
      (iv_length : length iv ≡ 16) (size : length t ≤ max_int64) (bare : IsBare t) where
    abbrev stream : Bool → Bool → Stream
    stream encryption compression =
        sent g c key iv t is_gzip is_cipher iv_length size bare encryption compression

    -- A snapshot that was saved in a bucket without an error, with or without encryption and
    -- compression, is restored from it as it was.
    pub restored-amazon_save :
        (s : AmazonSnapshotter) (encryption compression : Bool) (stored : S)
        → b.temp_file ≡ none
        → b.seek ≡ none
        → (amazon_save b s (stream encryption compression) stored).1 ≡ none
        → (r : Stream) × (amazon_load b s (amazon_save b s (stream encryption compression) stored).0
            ≡ ok r)
          × (incoming g c (some key) r ≡ file t)
    restored-amazon_save s encryption compression stored temp seek saved =
        let (x, e) =
          sent-file g c key iv t is_gzip is_cipher iv_length size bare encryption compression in
        let h = subst (λ r. (amazon_save b s r stored).1 ≡ none) e saved in
        (
          file x,
          ap (λ r. amazon_load b s (amazon_save b s r stored).0) e
              ∙ loaded-saved s x stored temp seek h,
          ap (incoming g c (some key)) (sym e)
              ∙ returned g c key iv t is_gzip is_cipher iv_length size bare encryption compression,
        )

-- A bucket that does not exist or is forbidden makes no snapshotter, but an error that is no answer of
-- the service does not keep one from being made.
pub new_amazon_snapshotter_with-no_answer :
    {S : Type 0} (b : Buckets S) (bucket key : Text) (e : Error)
    → b.session ≡ none
    → b.head_bucket bucket ≡ some (no_answer e)
    → new_amazon_snapshotter_with b bucket key ≡ ok (record { bucket = bucket; key = key })
unfolding new_amazon_snapshotter_with
new_amazon_snapshotter_with-no_answer b bucket key e session head = rw (session, head) refl
