-- ===== src/Snapshot/Tests.antt =====
-- Concrete snapshots and streams (pkg/snapshot).
use e2d.Prelude.Decimal.{pos, negsuc, max_int64}
use e2d.Snapshot.Varint.{put_varint, read_varint, read_varint-put_varint, zigzag, put_uvarint}
use e2d.Snapshot.Streams.{Stream, Cipher, Gzip, peek, read_full, new_decrypter_read_closer}
use e2d.Snapshot.Sealed.{IsCipher, sealed, ends, decrypter-cut, decrypter-signed}
use e2d.Snapshot.Backup.{outgoing, incoming, file_save, file_load, file, IsGzip, IsBare}
use e2d.Snapshot.Restored.{restored-saved}
use e2d.Netutil.{split_first}
use e2d.Snapshot.Url.{
  ParsedUrl, spaces_type, s3_type, parse_bucket_key, has_valid_scheme, parse_snapshot_backup_url,
}
use e2d.Prelude.{
  ℕ, suc, ◌≡◌, refl, ap, ◌↔◌, ◌⊎◌, inl, inr, true, false, Option, none, some, [], ◌∷◌, ◌++◌, map,
  arith, ◌==◌, if◌then◌else◌, length, Text, codes, str_eq, has_prefix, contains, trim_prefix, Error,
  eof, unexpected_eof, Result, ok,
}

put_varint_run : put_varint (negsuc 299) ≡ 215 ∷ 4 ∷ []
unfolding put_varint put_uvarint zigzag
put_varint_run = refl

read_varint-put_varint_example :
    read_varint eof (put_varint (negsuc max_int64) ++ codes "x") ≡ ok (negsuc max_int64, codes "x")
read_varint-put_varint_example =
    read_varint-put_varint eof (negsuc max_int64) (codes "x") (omega arith)

-- A stream that is shorter than what is peeked at is lost.
peek_short :
    peek 10 (file (codes "short"))
    ≡ (record { text = []; fail = none; close = some unexpected_eof }, [])
unfolding peek read_full
peek_short = refl

flip : ℕ → ℕ
flip c = if c == 0 then 1 else if c == 1 then 0 else c

flip_twice : (t : Text) → map flip (map flip t) ≡ t
unfolding flip
flip_twice [] = refl
flip_twice (c ∷ t) = let same : flip (flip c) ≡ c = ground arith in rw (same, flip_twice t) refl

length-flip : (t : Text) → length (map flip t) ≡ length t
length-flip [] = refl
length-flip (c ∷ t) = ap suc (length-flip t)

abbrev signature : Text
signature = codes "0123456789abcdef0123456789abcdef"

abbrev cipher : Cipher
cipher = record { ctr = λ key iv t. map flip t; hmac = λ key t. signature }

cipher-IsCipher : IsCipher cipher
cipher-IsCipher = record {
  ctr_twice = λ key iv t. flip_twice t;
  length-ctr = λ key iv t. length-flip t;
  length-hmac = λ key t. refl;
}

unpack : Text → Option Error → (Error × Text) ⊎ (Text × Option Error)
unpack (a ∷ b ∷ t) fail = inr (t, fail)
unpack t fail = inl (eof, t)

abbrev gzip : Gzip
gzip = record {
  compress = λ l t. 0x1f ∷ 0x8b ∷ t;
  unclosed = λ l t. 0x1f ∷ 0x8b ∷ [];
  reader = unpack;
}

gzip-IsGzip : IsGzip gzip
unfolding unpack
gzip-IsGzip = record { magic = λ l t. (t, refl); reads = λ l t. refl }

abbrev iv : Text
iv = codes "0123456789abcdef"

abbrev snapshot : Text
snapshot = codes "a bolt database"

snapshot-IsBare : IsBare snapshot
unfolding str_eq
snapshot-IsBare = record { long = omega arith; not_encrypted = refl; not_compressed = refl }

restored-saved_example :
    (r : Stream) × (file_load
        (file_save none
          (some (
            codes
              "an older and much longer file that is not truncated, and whose end is still there behind the new snapshot, its header and its signature"))
          (outgoing gzip cipher true false (codes "key") iv (pos 15) (file snapshot))).0
      ≡ ok r)
    × (incoming gzip cipher (some (codes "key")) r ≡ file snapshot)
restored-saved_example =
    restored-saved gzip cipher (codes "key") iv snapshot gzip-IsGzip cipher-IsCipher refl
      (omega arith) snapshot-IsBare true false
      (some (
        codes
          "an older and much longer file that is not truncated, and whose end is still there behind the new snapshot, its header and its signature"))
      (inr (refl, refl))

decrypter-cut_example :
    new_decrypter_read_closer cipher (some (codes "key")) (sealed (pos 15) iv (codes "a bolt") none)
    ≡ record { text = map flip (codes "a bolt"); fail = none; close = none }
decrypter-cut_example =
    decrypter-cut cipher (codes "key") iv (codes "a bolt") 15 refl (omega arith) (omega arith)

decrypter-signed_example :
    (ends (
        new_decrypter_read_closer cipher
          (some (codes "key"))
          (sealed (pos 6) iv (codes "a bolt" ++ signature) none))
      ≡ true)
    ↔ ((rest : Text) × (signature ≡ signature ++ rest))
decrypter-signed_example =
    decrypter-signed cipher (codes "key") iv (codes "a bolt") signature 6 cipher-IsCipher refl refl
      (omega arith) (λ e. cc e)

abbrev space : Text → Result ParsedUrl
space s = ok (record {
  scheme = codes "https";
  host = codes "nyc3.digitaloceanspaces.com";
  path = codes "/abc/dir/snapshot.gz";
})

space_run :
    parse_snapshot_backup_url space
      (codes "https://nyc3.digitaloceanspaces.com/abc/dir/snapshot.gz")
    ≡ ok (record { kind = spaces_type; bucket = codes "abc"; path = codes "dir/snapshot.gz" })
unfolding parse_snapshot_backup_url has_valid_scheme parse_bucket_key split_first str_eq has_prefix
    contains trim_prefix
space_run = refl

-- A bucket with a slash after it has an empty key.
slash_key :
    parse_snapshot_backup_url
      (λ s. ok (record { scheme = codes "s3"; host = codes "abc"; path = codes "/" }))
      (codes "s3://abc/")
    ≡ ok (record { kind = s3_type; bucket = codes "abc"; path = [] })
unfolding parse_snapshot_backup_url has_valid_scheme str_eq trim_prefix has_prefix
slash_key = refl
