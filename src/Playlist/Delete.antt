-- ===== src/Playlist/Delete.antt =====
-- src/playlist_edit.c: `playlist_delete`.

use mpd.Base.{ℕ, ◌+◌, ◌<◌, ◌≡◌, ◌≢◌, refl, ap, ◌∙◌, false, Option, some, leb, arith}
use mpd.Queue.{Queue, Song, get, get_order, order_to_position}
use mpd.Queue.Gap.{lowered, raised}
use mpd.Queue.Version.{Versioned, increment_version-IsValid, increment_version-Incremented}
use mpd.Queue.Random.{GRand}
use mpd.Playlist.{Playlist, Player, get_queued_song}
use mpd.Playlist.Edit.{success, increment_version, delete_song_at}
use mpd.Playlist.Remove.{Removed, delete_internal-Removed}
use mpd.Playlist.Inv.{IsOk, IsReady}
use mpd.Playlist.Update.{Updated, update_queued_song-Updated, get_queued_song-IsReady}

module _ (g : GRand) where
  -- `playlist_increment_version` moves no song.
  pub increment_version-IsReady :
      (p : Playlist g.State) (prev : Option Song)
      → IsReady p prev
      → IsReady (increment_version g p) prev
        × (increment_version g p ≡ record p {
          queue = (increment_version g p).queue;
          events = (increment_version g p).events;
        })
        × Versioned p.queue (increment_version g p).queue
  unfolding increment_version
  increment_version-IsReady p prev ok =
      let m = increment_version-Incremented p.queue ok.valid.version_lt in
      (
        record {
          valid = increment_version-IsValid ok.valid;
          current_lt = λ c e. ground (arith, m.versioned.rest, ok.current_lt c e);
          has_current = ok.has_current;
          agree = ok.agree;
        },
        refl,
        m.versioned,
      )

  -- What deleting the song at the position `song` leaves: a playlist in order without that song, the
  -- other songs in their order, and, unless it was the deleted one, the current song as it was.
  pub record Left (p : Playlist g.State) (song : ℕ) (p' : Playlist g.State) : Type 0 where
    pub ok : IsOk p'
    pub shorter : p'.queue.length + 1 ≡ p.queue.length
    pub song_at : (i : ℕ) → i < p'.queue.length → get p'.queue i ≡ get p.queue (raised song i)
    pub current_song :
        (c : ℕ)
        → p.current ≡ some c
        → p.queue.order c ≢ song
        → (o : ℕ) × (p'.current ≡ some o) × (get_order p'.queue o ≡ get_order p.queue c)

  -- the songs of the queue, and then the current one
  pub update-song_at :
      (p p' : Playlist g.State) (i : ℕ) → Updated g p p' → get p'.queue i ≡ get p.queue i
  unfolding get
  update-song_at p p' i u = ap (λ (t : Playlist g.State). get t.queue i) u.same_rest

  version-played : (q q' : Queue) (o : ℕ) → Versioned q q' → get_order q' o ≡ get_order q o
  unfolding get get_order order_to_position
  version-played q q' o ver =
      ver.song_at (q'.order o) ∙ ap (λ (t : Queue). (q.items (t.order o)).song) ver.rest

  update-played :
      (p p' : Playlist g.State) (o c : ℕ)
      → Updated g p p'
      → p'.queue.order o ≡ p.queue.order c
      → get_order p'.queue o ≡ get_order p.queue c
  unfolding get get_order order_to_position
  update-played p p' o c u e =
      update-song_at p p' (p'.queue.order o) u ∙ ap (λ t. (p.queue.items t).song) e

  module _ {p p1 p2 p' : Playlist g.State} {song : ℕ} {prev : Option Song}
      (r : Removed g p song p1 prev)
      (rest : p2 ≡ record p1 { queue = p2.queue; events = p2.events })
      (ver : Versioned p1.queue p2.queue) (u : Updated g p2 p') where
    left_current :
        (c : ℕ)
        → c < p.queue.length
        → p.current ≡ some c
        → p.queue.order c ≢ song
        → (o : ℕ) × (p'.current ≡ some o) × (get_order p'.queue o ≡ get_order p.queue c)
    left_current c lt e ne =
        let other : c ≢ r.order = λ (same : c ≡ r.order). ne (ground (arith, r.deleted.order_is)) in
        let n : ℕ = lowered r.order c in
        let n_lt : n < p1.queue.length = ground (arith, r.deleted.shorter, r.deleted.order_lt) in
        let at : p2.current ≡ some n =
          ap (λ (t : Playlist g.State). t.current) rest ∙ r.current_kept c e other in
        let (o, found, same) = u.current_song n at in
        let back : raised r.order n ≡ c = ground arith in
        (
          o,
          found,
          update-played p2 p' o n u same
              ∙ version-played p1.queue p2.queue n ver
              ∙ r.deleted.played n n_lt
              ∙ ap (λ t. get_order p.queue t) back,
        )

    deleted-Left : IsOk p → Left p song p'
    deleted-Left ok = record {
      ok = u.ok;
      shorter = ground (arith, u.same_rest, ver.rest, r.deleted.shorter);
      song_at = λ i l.
          update-song_at p2 p' i u
          ∙ ver.song_at i
          ∙ r.deleted.song_at i (ground (arith, u.same_rest, ver.rest));
      current_song = λ c e ne. left_current c (ok.current_lt c e) e ne;
    }

  -- On a playlist in order `playlist_delete` of a position in use returns success and leaves a playlist
  -- in order without that song, with the other songs in their order, and, unless it was the deleted one,
  -- the same current song.
  pub delete_song_at-Left :
      (pc : Player) (p : Playlist g.State) (song : ℕ)
      → IsOk p
      → song < p.queue.length
      → (p' : Playlist g.State) × (delete_song_at g pc p song ≡ some (success, p')) × Left p song p'
  unfolding delete_song_at
  delete_song_at-Left pc p song ok lt =
      let (p1, prev, removed, r) =
        delete_internal-Removed g pc p song (get_queued_song g p) lt
          (get_queued_song-IsReady g p ok) in
      let (ready, rest, ver) = increment_version-IsReady p1 prev r.ready in
      let (p', updated, u) = update_queued_song-Updated g (increment_version g p1) prev ready in
      let in_range : leb p.queue.length song ≡ false = ground arith in
      (p', simp in_range (rw removed (rw updated refl)), deleted-Left r rest ver u ok)
