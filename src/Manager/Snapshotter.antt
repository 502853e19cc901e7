-- ===== src/Manager/Snapshotter.antt =====
-- runSnapshotter and restoreFromSnapshot of pkg/manager/manager.go.
pub mod Saves
mod Tests
use e2d.Snapshot.Streams.{Stream, Cipher, Gzip}
use e2d.Snapshot.Backup.{outgoing, incoming}
use e2d.Manager.Peers.{Peer, validate_peers}
use e2d.Manager.Server.{Server, is_restarting, is_running, is_leader, create_snapshot}
use e2d.Prelude.Decimal.{ℤ}
use e2d.Prelude.{
  ℕ, ◌-◌, ◌≡◌, refl, inl, inr, Bool, true, false, not, ◌&&◌, Option, none, some, List, [], ◌∷◌,
  arith, ltb, leb, if◌then◌else◌, Bool-cases, Text, Error, Result, ok, err, panic,
}

pub record Settings : Type 0 where
  pub encryption : Bool
  pub compression : Bool
  pub key : Text

-- What a tick of the snapshotter meets: the server, the leader and the id that etcd knows, the
-- revision of the store and the snapshot of its backend, the initial vector, and the error of
-- `Save` for a stream.
pub record Tick : Type 0 where
  pub server : Server
  pub leader : ℕ
  pub id : ℕ
  pub revision : ℕ
  pub backend : Option (Stream × ℤ)
  pub iv : Text
  pub save_error : Stream → Option Error

pub saved : ℕ → ℕ → Stream → Option Error → ℕ × Option (ℕ × Stream)
saved latest rev r none = (rev, some (rev, r))
saved latest rev r (some e) = (latest, none)

pub created :
    Gzip → Cipher → Settings → Tick → ℕ → Result (Stream × ℤ × ℕ) → ℕ × Option (ℕ × Stream)
unfolding saved
created g c cfg t latest (ok (r, size, rev)) =
    let out = outgoing g c cfg.encryption cfg.compression cfg.key t.iv size r in
    saved latest rev out (t.save_error out)
created g c cfg t latest (err e) = (latest, none)
created g c cfg t latest panic = (latest, none)

-- A tick of `runSnapshotter`: the new `latestRev`, and what was saved with its revision.
unfoldable pub snapshot_tick : Gzip → Cipher → Settings → Tick → ℕ → ℕ × Option (ℕ × Stream)
unfolding created
snapshot_tick g c cfg t latest =
    if is_restarting t.server
    then (latest, none)
    else if not (is_leader t.leader t.id t.server)
    then (latest, none)
    else created g c cfg t latest (create_snapshot latest t.revision t.backend)

abbrev pub also : Option (ℕ × Stream) → List (ℕ × Stream) → List (ℕ × Stream)
also none rest = rest
also (some s) rest = s ∷ rest

-- The loop of `runSnapshotter` over its ticks: what was saved.
unfoldable pub snapshot_ticks : Gzip → Cipher → Settings → List Tick → ℕ → List (ℕ × Stream)
snapshot_ticks g c cfg [] latest = []
snapshot_ticks g c cfg (t ∷ ts) latest =
    let (rev, s) = snapshot_tick g c cfg t latest in also s (snapshot_ticks g c cfg ts rev)

-- `runSnapshotter`, with its first `latestRev`
unfoldable pub run_snapshotter : Gzip → Cipher → Settings → List Tick → List (ℕ × Stream)
run_snapshotter g c cfg ts = snapshot_ticks g c cfg ts 0

-- What `restoreFromSnapshot` meets: the loaded stream, or that there is no snapshotter, the error
-- of the file it copies to, and of etcd's restore from the text and the peers.
pub record Backup : Type 0 where
  pub load : Option (Result Stream)
  pub file_error : Option Error
  pub restore_error : Text → List Peer → Option Error

-- What it leaves: whether the data directory was removed, whether the store was restored, and the
-- error.
pub record Restore : Type 0 where
  pub dir_removed : Bool
  pub restored : Bool
  pub error : Option Error

unfoldable pub not_restored : Option Error → Restore
not_restored e = record { dir_removed = false; restored = false; error = e }

restored_by : Option Error → Restore
restored_by none = record { dir_removed = true; restored = true; error = none }
restored_by (some e) = record { dir_removed = true; restored = false; error = some e }

-- `restoreSnapshot` of pkg/manager/server.go
unfoldable pub restore_snapshot : Backup → ℕ → List Peer → Text → Option Error
restore_snapshot b required peers t = elim (validate_peers peers required) [
  | some e ↦ some e
  | none ↦ b.restore_error t peers
]

copied : Backup → ℕ → List Peer → Stream → Restore
unfolding restored_by not_restored
copied b required peers r = elim r.fail [
  | some e ↦ not_restored (some e)
  | none ↦ restored_by (restore_snapshot b required peers r.text)
]

restore_loaded :
    Gzip → Cipher → Option Text → Backup → ℕ → List Peer → Option (Result Stream) → Restore
unfolding copied not_restored
restore_loaded g c key b required peers none = not_restored none
restore_loaded g c key b required peers (some (err e)) = not_restored (some e)
restore_loaded g c key b required peers (some panic) = not_restored none
restore_loaded g c key b required peers (some (ok r)) = elim b.file_error [
  | some e ↦ not_restored (some e)
  | none ↦ copied b required peers (incoming g c key r)
]

-- `restoreFromSnapshot`
unfoldable pub restore_from_snapshot :
    Gzip → Cipher → Option Text → Backup → ℕ → List Peer → Restore
unfolding restore_loaded
restore_from_snapshot g c key b required peers = restore_loaded g c key b required peers b.load

-- Whether the revisions are above `n`, and each above the one before it.
abbrev pub increasing : ℕ → List (ℕ × Stream) → Bool
increasing n [] = true
increasing n (s ∷ rest) = ltb n s.0 && increasing s.0 rest

-- What a tick saves is newer than what was saved before it.
tick_newer :
    (g : Gzip) (c : Cipher) (cfg : Settings) (t : Tick) (latest : ℕ) (rest : ℕ → List (ℕ × Stream))
    → ((n : ℕ) → increasing n (rest n) ≡ true)
    → increasing latest
        (also (snapshot_tick g c cfg t latest).1 (rest (snapshot_tick g c cfg t latest).0))
      ≡ true
unfolding snapshot_tick create_snapshot
tick_newer g c cfg t latest rest h = elim (Bool-cases (is_restarting t.server)) [
  | inl e ↦ rw e (h latest)
  | inr e ↦ elim (Bool-cases (is_leader t.leader t.id t.server)) [
    | inr l ↦ rw (e, l) (h latest)
    | inl l ↦ rw (e, l) (of_backend t.backend)
  ]
]
  where
    of_save :
        (rev : ℕ) (out : Stream) (o : Option Error)
        → ltb latest rev ≡ true
        → increasing latest (also (saved latest rev out o).1 (rest (saved latest rev out o).0))
          ≡ true
    of_save rev out none n = rw n (h rev)
    of_save rev out (some e) n = h latest

    of_backend :
        (b : Option (Stream × ℤ))
        → increasing latest (
            also
              (created g c cfg t latest (create_snapshot latest t.revision b)).1
              (rest (created g c cfg t latest (create_snapshot latest t.revision b)).0))
          ≡ true
    of_backend none = h latest
    of_backend (some (r, size)) = elim (Bool-cases (leb t.revision latest)) [
      | inl old ↦ rw old (h latest)
      | inr new ↦
          let out = outgoing g c cfg.encryption cfg.compression cfg.key t.iv size r in
          rw new (of_save t.revision out (t.save_error out) (ground (arith, new)))
    ]

pub ticks_increasing :
    (g : Gzip) (c : Cipher) (cfg : Settings) (ts : List Tick) (latest : ℕ)
    → increasing latest (snapshot_ticks g c cfg ts latest) ≡ true
unfolding snapshot_ticks
ticks_increasing g c cfg [] latest = refl
ticks_increasing g c cfg (t ∷ ts) latest =
    tick_newer g c cfg t latest (snapshot_ticks g c cfg ts) (ticks_increasing g c cfg ts)
