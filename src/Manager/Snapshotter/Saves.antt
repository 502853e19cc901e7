-- ===== src/Manager/Snapshotter/Saves.antt =====
-- Which snapshots are saved (runSnapshotter of pkg/manager/manager.go).
use e2d.Snapshot.Streams.{Stream, Cipher, Gzip}
use e2d.Snapshot.Backup.{outgoing}
use e2d.Manager.Server.{is_restarting, is_leader, create_snapshot}
use e2d.Manager.Snapshotter.{
  Settings, Tick, saved, created, snapshot_tick, also, snapshot_ticks, run_snapshotter, increasing,
  ticks_increasing,
}
use e2d.Prelude.Decimal.{ℤ}
use e2d.Prelude.{
  ℕ, ◌≡◌, refl, subst, inl, inr, true, false, Option, none, some, List, [], ◌∷◌, leb, Bool-cases,
  All, In, Error, ok,
}

-- A tick that saved a snapshot of a revision: its server is the leader and is not restarting, and
-- the stream that was saved without an error is what goes out of the snapshot of its store.
pub record Saves (g : Gzip) (c : Cipher) (cfg : Settings) (s : ℕ × Stream) (t : Tick) : Type 0 where
  pub not_restarting : is_restarting t.server ≡ false
  pub leader : is_leader t.leader t.id t.server ≡ true
  pub revision : t.revision ≡ s.0
  pub stream :
      (b : Stream × ℤ) × (t.backend ≡ some b)
      × (s.1 ≡ outgoing g c cfg.encryption cfg.compression cfg.key t.iv b.1 b.0)
  pub no_error : t.save_error s.1 ≡ none

module _ (g : Gzip) (c : Cipher) (cfg : Settings) where
  saved-Saves :
      (t : Tick) (latest : ℕ) (b : Stream × ℤ) (s : ℕ × Stream)
      → is_restarting t.server ≡ false
      → is_leader t.leader t.id t.server ≡ true
      → t.backend ≡ some b
      → (created g c cfg t latest (ok (b.0, b.1, t.revision))).1 ≡ some s
      → Saves g c cfg s t
  unfolding created saved
  saved-Saves t latest b s r l e h =
      of_save (t.save_error (outgoing g c cfg.encryption cfg.compression cfg.key t.iv b.1 b.0)) refl
        h
    where
      of_save :
          (o : Option Error)
          → t.save_error (outgoing g c cfg.encryption cfg.compression cfg.key t.iv b.1 b.0) ≡ o
          → (saved latest t.revision
              (outgoing g c cfg.encryption cfg.compression cfg.key t.iv b.1 b.0)
              o).1
            ≡ some s
          → Saves g c cfg s t
      of_save (some x) d k = absurd (cc k)
      of_save none d k =
          let same : (t.revision, outgoing g c cfg.encryption cfg.compression cfg.key t.iv b.1 b.0)
              ≡ s =
            cc k in
          subst (λ q. Saves g c cfg q t) same
            (record {
              not_restarting = r;
              leader = l;
              revision = refl;
              stream = (b, e, refl);
              no_error = d;
            })

  tick-Saves :
      (t : Tick) (latest : ℕ) (s : ℕ × Stream)
      → (snapshot_tick g c cfg t latest).1 ≡ some s
      → Saves g c cfg s t
  unfolding snapshot_tick create_snapshot created
  tick-Saves t latest s h = elim (Bool-cases (is_restarting t.server)) [
    | inl r ↦ absurd (cc (rw r at h))
    | inr r ↦ elim (Bool-cases (is_leader t.leader t.id t.server)) [
      | inr l ↦ absurd (cc (rw (r, l) at h))
      | inl l ↦ of_backend t.backend refl (rw (r, l) at h) r l
    ]
  ]
    where
      of_backend :
          (b : Option (Stream × ℤ))
          → t.backend ≡ b
          → (created g c cfg t latest (create_snapshot latest t.revision b)).1 ≡ some s
          → is_restarting t.server ≡ false
          → is_leader t.leader t.id t.server ≡ true
          → Saves g c cfg s t
      of_backend none e k r l = absurd (cc k)
      of_backend (some b) e k r l = elim (Bool-cases (leb t.revision latest)) [
        | inl old ↦ absurd (cc (rw old at k))
        | inr new ↦ saved-Saves t latest b s r l e (rw new at k)
      ]

  also-All :
      (P : ℕ × Stream → Type 0) (o : Option (ℕ × Stream)) (rest : List (ℕ × Stream))
      → ((s : ℕ × Stream) → o ≡ some s → P s)
      → All P rest
      → All P (also o rest)
  also-All P none rest h k = k
  also-All P (some s) rest h k = (h s refl, k)

  ticks-Saves :
      (all_ticks ts : List Tick) (latest : ℕ)
      → ((t : Tick) → In t ts → In t all_ticks)
      → All
          (λ s. (t : Tick) × In t all_ticks × Saves g c cfg s t)
          (snapshot_ticks g c cfg ts latest)
  unfolding snapshot_ticks
  ticks-Saves all_ticks [] latest sub = tt
  ticks-Saves all_ticks (t ∷ ts) latest sub =
      also-All (λ s. (t : Tick) × In t all_ticks × Saves g c cfg s t)
        (snapshot_tick g c cfg t latest).1
        (snapshot_ticks g c cfg ts (snapshot_tick g c cfg t latest).0)
        (λ s e. (t, sub t (In.here refl), tick-Saves t latest s e))
        (ticks-Saves all_ticks ts (snapshot_tick g c cfg t latest).0 (λ u i. sub u (In.there i)))

  -- However often the snapshotter ticks, and whatever the server and the saves answer, each snapshot
  -- that it saves is of a higher revision than the one before it, and is one of a tick at which the
  -- server was the leader and was not restarting, saved without an error as the settings say.
  pub run_snapshotter-Saves :
      (ts : List Tick)
      → (increasing 0 (run_snapshotter g c cfg ts) ≡ true)
        × All (λ s. (t : Tick) × In t ts × Saves g c cfg s t) (run_snapshotter g c cfg ts)
  unfolding run_snapshotter
  run_snapshotter-Saves ts = (ticks_increasing g c cfg ts 0, ticks-Saves ts ts 0 (λ t i. i))
