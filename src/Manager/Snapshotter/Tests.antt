-- ===== src/Manager/Snapshotter/Tests.antt =====
-- A snapshotter whose first save fails (pkg/manager/manager.go).
use e2d.Prelude.Decimal.{pos}
use e2d.Snapshot.Streams.{Stream, Cipher, Gzip}
use e2d.Snapshot.Backup.{outgoing}
use e2d.Manager.Server.{is_running, is_restarting, is_leader, create_snapshot}
use e2d.Manager.Snapshotter.{
  Settings, Tick, snapshot_tick, snapshot_ticks, run_snapshotter, increasing,
}
use e2d.Manager.Snapshotter.Saves.{Saves, run_snapshotter-Saves}
use e2d.Prelude.{
  ℕ, ◌≡◌, refl, inr, Bool, true, false, Option, none, some, List, [], ◌∷◌, All, In, Text, codes,
  Error, deadline,
}

abbrev cipher : Cipher
cipher = record { ctr = λ key iv t. t; hmac = λ key t. [] }

abbrev gzip : Gzip
gzip = record { compress = λ l t. t; unclosed = λ l t. t; reader = λ t fail. inr (t, fail) }

abbrev plain : Settings
plain = record { encryption = false; compression = false; key = [] }

abbrev stream_of : Text → Stream
stream_of t = record { text = t; fail = none; close = none }

abbrev tick : Bool → ℕ → Option Error → Tick
tick restarting revision e = record {
  server = record { etcd = true; started = true; restarting = restarting };
  leader = 1;
  id = 1;
  revision = revision;
  backend = some (stream_of (codes "bolt"), pos 4);
  iv = [];
  save_error = λ r. e;
}

abbrev ticks : List Tick
ticks =
    tick false 5 (some deadline)
    ∷ tick false 5 none
    ∷ tick false 5 none
    ∷ tick true 8 none
    ∷ tick false 9 none
    ∷ []

snapshots :
    run_snapshotter gzip cipher plain ticks
    ≡ (5, stream_of (codes "bolt")) ∷ (9, stream_of (codes "bolt")) ∷ []
unfolding run_snapshotter snapshot_ticks snapshot_tick create_snapshot outgoing is_leader is_running
    is_restarting
snapshots = refl

run_snapshotter-Saves_example :
    (increasing 0 (run_snapshotter gzip cipher plain ticks) ≡ true)
    × All
        (λ s. (t : Tick) × In t ticks × Saves gzip cipher plain s t)
        (run_snapshotter gzip cipher plain ticks)
run_snapshotter-Saves_example = run_snapshotter-Saves gzip cipher plain ticks
