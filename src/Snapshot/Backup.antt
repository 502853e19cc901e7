-- ===== src/Snapshot/Backup.antt =====
-- How a snapshot goes to the backup and comes back: runSnapshotter and restoreFromSnapshot of
-- pkg/manager/manager.go with the streams of pkg/snapshot/util, and pkg/snapshot/snapshot_file.go.
use e2d.Snapshot.Streams.{
  Stream, read_full, Cipher, Gzip, Level, no_compression, best_compression, pipe, gzip_at, peek,
  is_encrypted, is_compressed, encrypted_snapshot_header, gzip_magic_header,
  new_encrypter_read_closer, new_decrypter_read_closer, new_gzip_read_closer,
  new_gunzip_read_closer,
}
use e2d.E2db.Key.{filepath_dir}
use e2d.Snapshot.Sealed.{read_full-append}
use e2d.Prelude.Decimal.{ℤ}
use e2d.Prelude.{
  ℕ, ◌≤◌, ◌≡◌, refl, ap, ◌∙◌, inr, Bool, true, false, Option, none, some, [], ◌++◌, arith,
  if◌then◌else◌, length, take, drop, Text, codes, str_eq, Error, other, Result, ok, err,
}

-- `runSnapshotter`: the stream that is saved, by SnapshotEncryption and SnapshotCompression.
unfoldable pub outgoing : Gzip → Cipher → Bool → Bool → Text → Text → ℤ → Stream → Stream
outgoing g c encryption compression key iv size r =
    let e = if encryption then new_encrypter_read_closer c key iv size r else r in
    if compression then new_gzip_read_closer g e else e

-- `restoreFromSnapshot`: the stream that is copied to the file to restore from.
unfoldable pub incoming : Gzip → Cipher → Option Text → Stream → Stream
incoming g c key r = new_decrypter_read_closer c key (new_gunzip_read_closer g r)

or_path : Option Error → Text → Result Text
or_path (some e) path = err e
or_path none path = ok path

-- `NewFileSnapshotter`, by the error of making a directory, but that there is one; a snapshotter is its
-- path.
unfoldable pub new_file_snapshotter : (Text → Option Error) → Text → Result Text
unfolding or_path
new_file_snapshotter make_dir path = or_path (make_dir (filepath_dir path)) path

abbrev pub contents : Option Text → Text
contents none = []
contents (some t) = t

-- `FileSnapshotter.Save`, by the error of opening the file, what is at its path and the stream: the
-- file is not truncated, so the end of a longer one stays.
unfoldable pub file_save : Option Error → Option Text → Stream → Option Text × Option Error
file_save (some e) old r = (old, some e)
file_save none old r = (some (r.text ++ drop (length r.text) (contents old)), r.fail)

-- `FileSnapshotter.Load`
unfoldable pub file_load : Option Text → Result Stream
file_load none = err (other (codes "file does not exist"))
file_load (some t) = ok (record { text = t; fail = none; close = none })

-- What compress/gzip is relied on for.
pub record IsGzip (g : Gzip) : Type 0 where
  pub magic : (l : Level) (t : Text) → (rest : Text) × (g.compress l t ≡ gzip_magic_header ++ rest)
  pub reads : (l : Level) (t : Text) → g.reader (g.compress l t) none ≡ inr (t, none)

-- A text that is long enough to be peeked at, and begins with neither header.
pub record IsBare (t : Text) : Type 0 where
  pub long : 10 ≤ length t
  pub not_encrypted : str_eq (take 10 t) encrypted_snapshot_header ≡ false
  pub not_compressed : str_eq (take 2 t) gzip_magic_header ≡ false

abbrev pub file : Text → Stream
file t = record { text = t; fail = none; close = none }

peek_long : (n : ℕ) (t : Text) → n ≤ length t → peek n (file t) ≡ (file t, take n t)
unfolding peek read_full
peek_long n t h = ground arith

pub decrypter_bare :
    (c : Cipher) (key : Option Text) (t : Text)
    → IsBare t
    → new_decrypter_read_closer c key (file t) ≡ file t
unfolding new_decrypter_read_closer is_encrypted
decrypter_bare c key t b = rw (peek_long 10 t b.long, b.not_encrypted) refl

pub gunzip_bare : (g : Gzip) (t : Text) → IsBare t → new_gunzip_read_closer g (file t) ≡ file t
unfolding new_gunzip_read_closer is_compressed
gunzip_bare g t b =
    let two : 2 ≤ length t = omega (arith, b.long) in rw (peek_long 2 t two, b.not_compressed) refl

pub gunzip-compress :
    (g : Gzip) (l : Level) (t : Text)
    → IsGzip g
    → new_gunzip_read_closer g (file (g.compress l t)) ≡ file t
unfolding new_gunzip_read_closer is_compressed peek str_eq
gunzip-compress g l t k =
    let (rest, e) = k.magic l t in
    rw
      (
        ap (λ s. read_full 2 s none) e ∙ read_full-append 2 gzip_magic_header rest none refl,
        k.reads l t,
      )
      refl

level_of : Bool → Level
level_of true = no_compression
level_of false = best_compression

pub gzip_long :
    (g : Gzip) (t : Text)
    → 10 ≤ length t
    → (l : Level) × (new_gzip_read_closer g (file t) ≡ file (g.compress l t))
unfolding new_gzip_read_closer is_encrypted pipe gzip_at level_of
gzip_long g t h = (
  level_of (str_eq (take 10 t) encrypted_snapshot_header),
  by_level (str_eq (take 10 t) encrypted_snapshot_header) refl,
)
  where
    by_level :
        (b : Bool)
        → str_eq (take 10 t) encrypted_snapshot_header ≡ b
        → new_gzip_read_closer g (file t) ≡ file (g.compress (level_of b) t)
    by_level true e = rw (peek_long 10 t h, e) refl
    by_level false e = rw (peek_long 10 t h, e) refl
