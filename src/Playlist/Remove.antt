-- ===== src/Playlist/Remove.antt =====
-- src/playlist_edit.c: `playlist_delete_internal`.

use mpd.Base.{
  ℕ, ◌<◌, ◌≡◌, ◌≢◌, refl, ap, ◌∙◌, true, false, ◌&&◌, Option, none, some, ◌==◌, arith, Bool-cases,
  Option-cases, inl, inr,
}
use mpd.Queue.{Queue, Song, next_order}
use mpd.Queue.Edit.{delete}
use mpd.Queue.Next.{next_order-lt}
use mpd.Queue.Delete.{Deleted, delete-Deleted}
use mpd.Queue.Gap.{lowered}
use mpd.Queue.Random.{GRand}
use mpd.Playlist.{Playlist, Player, stop, is_some, is_paused, tell, play_order}
use mpd.Playlist.Edit.{
  is_order, lower_current, stop_playlist, skip_deleted, skip_if_current, forget, remove_song,
  delete_internal,
}
use mpd.Playlist.Inv.{IsReady}

module _ (g : GRand) where
  -- What is left to delete from, once the current song is not the one at `order`.
  pub record Skipped (p : Playlist g.State) (order : ℕ) (p' : Playlist g.State) (prev : Option Song)
      : Type 0 where
    pub queue_same : p'.queue ≡ p.queue
    pub current_lt : (c : ℕ) → p'.current ≡ some c → c < p.queue.length
    pub current_ne : (c : ℕ) → p'.current ≡ some c → c ≢ order
    pub kept : (c : ℕ) → p.current ≡ some c → c ≢ order → p'.current ≡ some c
    pub has_current : p'.playing ≡ true → is_some p'.current ≡ true
    pub agree : p'.playing ≡ true → is_some prev ≡ is_some p'.queued

  -- with no current song
  no_current :
      (p : Playlist g.State) (order : ℕ)
      → is_order p.current order ≡ true
      → Skipped p order (record (tell stop p) { playing = false; current = none }) none
  no_current p order here = record {
    queue_same = refl;
    current_lt = λ c e'. absurd (ground arith);
    current_ne = λ c e'. absurd (ground arith);
    kept = λ c e' ne. absurd (ground arith);
    has_current = λ pl. absurd (ground arith);
    agree = λ pl. absurd (ground arith);
  }

  skip_deleted-Skipped :
      (pc : Player) (p : Playlist g.State) (order : ℕ)
      → order < p.queue.length
      → is_order p.current order ≡ true
      → (p' : Playlist g.State) × (skip_deleted g pc p order ≡ some p') × Skipped p order p' none
  unfolding skip_deleted stop_playlist play_order
  skip_deleted-Skipped pc p order lt at = elim (Option-cases (next_order p.queue order)) [
    | inl e ↦ (
      record (tell stop p) { playing = false; current = none },
      ground arith,
      no_current p order at,
    )
    | inr (n, e) ↦ elim (Bool-cases (n == order)) [
      | inl here ↦ (
        record (tell stop p) { playing = false; current = none },
        ground arith,
        no_current p order at,
      )
      | inr other ↦
          let n_lt : n < p.queue.length = next_order-lt p.queue order n lt e in
          elim (Bool-cases (is_paused pc.state)) [
            | inl t ↦ (
              record (tell stop p) { playing = false; current = some n },
              ground arith,
              record {
                queue_same = refl;
                current_lt = λ c e'. ground arith;
                current_ne = λ c e'. ground arith;
                kept = λ c e' ne. absurd (ground arith);
                has_current = λ pl. absurd (ground arith);
                agree = λ pl. absurd (ground arith);
              },
            )
            | inr f ↦ (
              play_order g (record (tell stop p) { playing = false; current = some n }) n,
              ground arith,
              record {
                queue_same = refl;
                current_lt = λ c e'. ground arith;
                current_ne = λ c e'. ground arith;
                kept = λ c e' ne. absurd (ground arith);
                has_current = λ pl. ground arith;
                agree = λ pl. refl;
              },
            )
          ]
    ]
  ]

  skip_if_current-Skipped :
      (pc : Player) (p : Playlist g.State) (order : ℕ) (prev : Option Song)
      → order < p.queue.length
      → IsReady p prev
      → (p' : Playlist g.State) × (prev' : Option Song) × (skip_if_current g pc p order prev
          ≡ some (p', prev'))
        × Skipped p order p' prev'
  unfolding skip_if_current
  skip_if_current-Skipped pc p order prev lt ok =
      elim (Bool-cases (p.playing && is_order p.current order)) [
        | inl t ↦
            let (p', found, s) = skip_deleted-Skipped pc p order lt (ground arith) in
            (p', none, rw (t, found) refl, s)
        | inr f ↦ elim (Bool-cases (is_order p.current order)) [
          | inl here ↦ (
            record p { current = none },
            prev,
            simp f (simp here refl),
            record {
              queue_same = refl;
              current_lt = λ c e'. absurd (ground arith);
              current_ne = λ c e'. absurd (ground arith);
              kept = λ c e' ne. absurd (ground arith);
              has_current = λ pl. absurd (ground arith);
              agree = ok.agree;
            },
          )
          | inr away ↦ (
            p,
            prev,
            simp f (simp away refl),
            record {
              queue_same = refl;
              current_lt = ok.current_lt;
              current_ne = λ c e'. ground arith;
              kept = λ c e' ne. e';
              has_current = ok.has_current;
              agree = ok.agree;
            },
          )
        ]
      ]

  forget-rest :
      (song : ℕ) (p : Playlist g.State)
      → forget g song p ≡ record p { calls = (forget g song p).calls }
  unfolding forget
  forget-rest song p = ground arith

  -- What `playlist_delete_internal` has done: the song is deleted from the queue, and the playlist is
  -- ready for `playlist_update_queued_song`.
  pub record Removed (p : Playlist g.State) (song : ℕ) (p' : Playlist g.State) (prev : Option Song)
      : Type 0 where
    pub ready : IsReady p' prev
    pub order : ℕ
    pub deleted : Deleted p.queue song order p'.queue
    pub current_kept :
        (c : ℕ) → p.current ≡ some c → c ≢ order → p'.current ≡ some (lowered order c)

  remove_song-Removed :
      (p p1 : Playlist g.State) (song order : ℕ) (q' : Queue) (prev : Option Song)
      → delete p.queue song ≡ some q'
      → Deleted p.queue song order q'
      → Skipped p order p1 prev
      → (p' : Playlist g.State) × (remove_song g song order (p1, prev) ≡ some (p', prev))
        × Removed p song p' prev
  unfolding remove_song
  remove_song-Removed p p1 song order q' prev done d s =
      let p2 = forget g song p1 in
      let f = forget-rest song p1 in
      let same : p2.queue ≡ p.queue = ap (λ (t : Playlist g.State). t.queue) f ∙ s.queue_same in
      let again : delete p2.queue song ≡ some q' = ap (λ q. delete q song) same ∙ done in
      (
        record p2 { queue = q'; current = lower_current p2.current order },
        rw again refl,
        record {
          ready = record {
            valid = d.valid;
            current_lt = λ c e. elim (Option-cases p1.current) [
              | inl n ↦ absurd (ground (arith, f))
              | inr (o, n) ↦ ground (arith, f, s.current_lt o n, s.current_ne o n, d.shorter)
            ];
            has_current = λ pl. ground (arith, f, s.has_current (ground (arith, f)));
            agree = λ pl. ground (arith, f, s.agree (ground (arith, f)));
          };
          order = order;
          deleted = d;
          current_kept = λ c e ne. ground (arith, f, s.kept c e ne);
        },
      )

  -- On a playlist that is ready, `playlist_delete_internal` of a position in use returns, and leaves a
  -- playlist that is ready, from whose queue that song is deleted; a current song that is not the deleted
  -- one stays current, at its lowered order number.
  pub delete_internal-Removed :
      (pc : Player) (p : Playlist g.State) (song : ℕ) (prev : Option Song)
      → song < p.queue.length
      → IsReady p prev
      → (p' : Playlist g.State) × (prev' : Option Song) × (delete_internal g pc p song prev
          ≡ some (p', prev'))
        × Removed p song p' prev'
  unfolding delete_internal
  delete_internal-Removed pc p song prev lt ok =
      let (order, q', found, done, d) = delete-Deleted ok.valid song lt in
      let (p1, prev1, skipped, s) = skip_if_current-Skipped pc p order prev d.order_lt ok in
      let (p', removed, r) = remove_song-Removed p p1 song order q' prev1 done d s in
      (p', prev1, rw found (rw skipped removed), r)
