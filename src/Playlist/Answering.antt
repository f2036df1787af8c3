-- ===== src/Playlist/Answering.antt =====
-- src/playlist_edit.c: the operations on songs, on a playlist in order.
use mathlib.Core.Path.{subst}
use mpd.Base.{
  if-true, uint_mod, ℕ, ◌+◌, ◌^◌, ◌<◌, ◌≡◌, refl, sym, true, Option, some, leb, arith, Bool-cases,
  Option-cases, inl, inr,
}
use mpd.Queue.{Song, to_position}
use mpd.Queue.Random.{GRand}
use mpd.Playlist.{>>=-some, Playlist, Player, ◌>>=◌}
use mpd.Playlist.Edit.{
  Result, success, bad_range, no_such_song, Target, position, behind_current, append_song,
  swap_songs, delete_song_at, delete_range,
}
use mpd.Playlist.Move.{move_songs, move_id}
use mpd.Playlist.Shuffle.{delete_id, swap_songs_id}
use mpd.Playlist.Inv.{IsOk}
use mpd.Playlist.Delete.{delete_song_at-Left}
use mpd.Playlist.DeleteRange.{delete_range-Cut}
use mpd.Playlist.Append.{append_song-Added}
use mpd.Playlist.Swap.{swap_songs-Swapped}
use mpd.Playlist.Moves.{move_songs-Rearranged}
use mpd.Playlist.Playing.{Keeps, Answers}
use mpd.Playlist.Requests.{move_one, IsSound, state_of, move_song-Answers}

module _ (g : GRand) where
  pub Answers-Keeps : (o : Option (Result × Playlist g.State)) → Answers o → Keeps (state_of g o)
  Answers-Keeps o (r, p', e, ok) = (p', >>=-some _ e, ok)

  delete_song_at-bad_range :
      (pc : Player) (p : Playlist g.State) (song : ℕ)
      → leb p.queue.length song ≡ true
      → delete_song_at g pc p song ≡ some (bad_range, p)
  unfolding delete_song_at
  delete_song_at-bad_range pc p song t = if-true _ _ t

  position-lt :
      (p : Playlist g.State) (id song : ℕ)
      → IsOk p
      → to_position p.queue id ≡ some song
      → song < p.queue.length
  unfolding to_position
  position-lt p id song ok e = ground (arith, ok.valid.position_lt id song)

  pub delete_song_at-Answers :
      (pc : Player) (p : Playlist g.State) (song : ℕ)
      → IsOk p
      → Answers (delete_song_at g pc p song)
  delete_song_at-Answers pc p song ok = elim (Bool-cases (leb p.queue.length song)) [
    | inl t ↦ (bad_range, p, delete_song_at-bad_range pc p song t, ok)
    | inr f ↦
        let (p', deleted, left) = delete_song_at-Left g pc p song ok (ground arith) in
        (success, p', deleted, left.ok)
  ]

  pub swap_songs-Answers : (p : Playlist g.State) (a b : ℕ) → IsOk p → Answers (swap_songs g p a b)
  swap_songs-Answers p a b ok = elim (swap_songs-Swapped g p a b ok) [
    | inl (_, e) ↦ (bad_range, p, e, ok)
    | inr (_, _, p', e, s) ↦ (success, p', e, s.ok)
  ]

  pub delete_range-Answers :
      (pc : Player) (p : Playlist g.State) (start end : ℕ)
      → IsOk p
      → Answers (delete_range g pc p start end)
  delete_range-Answers pc p start end ok = elim (delete_range-Cut g pc p start end ok) [
    | inl (_, e) ↦ (bad_range, p, e, ok)
    | inr (inl (_, _, e)) ↦ (success, p, e, ok)
    | inr (inr (_, _, p', e, c)) ↦ (success, p', e, c.ok)
  ]

  pub add-Keeps :
      (p : Playlist g.State) (song : Song) → IsOk p → Keeps (append_song g p song >>= λ r. some r.2)
  add-Keeps p song ok = elim (append_song-Added g p song ok) [
    | inl (_, e) ↦ (p, >>=-some _ e, ok)
    | inr (id, p', e, a) ↦ (p', >>=-some _ e, a.ok)
  ]

  pub move_block-Answers :
      (p : Playlist g.State) (start end to : ℕ)
      → IsOk p
      → start < end
      → end < uint_mod
      → to < 2 ^ 31
      → Answers (move_songs g p start end (position to))
  move_block-Answers p start end to ok lt le small =
      elim (move_songs-Rearranged g p start end to ok lt le small) [
        | inl (_, e) ↦ (bad_range, p, e, ok)
        | inr (_, _, p', e, inl (_, same)) ↦ (success, p', e, subst IsOk (sym same) ok)
        | inr (_, _, p', e, inr r) ↦ (success, p', e, r.ok)
      ]

  move_song_to-Answers :
      (p : Playlist g.State) (id song : ℕ) (to : Target)
      → IsOk p
      → song < p.queue.length
      → IsSound p (move_one id to)
      → Answers (move_songs g p song (song + 1) to)
  move_song_to-Answers p id song (position to) ok lt sound =
      move_block-Answers p song (song + 1) to ok (omega arith)
        (ground (arith, ok.valid.fits, ok.valid.small)) sound
  move_song_to-Answers p id song (behind_current n) ok lt (c, e) =
      move_song-Answers g p song c n ok lt e

  pub move_id-Answers :
      (p : Playlist g.State) (id : ℕ) (to : Target)
      → IsOk p
      → IsSound p (move_one id to)
      → Answers (move_id g p id to)
  unfolding move_id
  move_id-Answers p id to ok sound = elim (Option-cases (to_position p.queue id)) [
    | inl n ↦ (no_such_song, p, rw (n, move_id) refl, ok)
    | inr (song, e) ↦
        let lt : song < p.queue.length = position-lt p id song ok e in
        let (r, p', moved, ok') = move_song_to-Answers p id song to ok lt sound in
        (r, p', rw (e, move_id) moved, ok')
  ]

  pub delete_id-Answers :
      (pc : Player) (p : Playlist g.State) (id : ℕ) → IsOk p → Answers (delete_id g pc p id)
  unfolding delete_id
  delete_id-Answers pc p id ok = elim (Option-cases (to_position p.queue id)) [
    | inl n ↦ (no_such_song, p, rw (n, delete_id) refl, ok)
    | inr (song, e) ↦
        let (r, p', deleted, ok') = delete_song_at-Answers pc p song ok in
        (r, p', rw (e, delete_id) deleted, ok')
  ]

  pub swap_songs_id-Answers :
      (p : Playlist g.State) (id1 id2 : ℕ) → IsOk p → Answers (swap_songs_id g p id1 id2)
  unfolding swap_songs_id
  swap_songs_id-Answers p id1 id2 ok = elim (Option-cases (to_position p.queue id1)) [
    | inl n ↦ (no_such_song, p, rw (n, swap_songs_id) refl, ok)
    | inr (song1, e1) ↦ elim (Option-cases (to_position p.queue id2)) [
      | inl n ↦ (no_such_song, p, rw (e1, swap_songs_id) (rw n refl), ok)
      | inr (song2, e2) ↦
          let (r, p', swapped, ok') = swap_songs-Answers p song1 song2 ok in
          (r, p', rw (e1, swap_songs_id) (rw e2 swapped), ok')
    ]
  ]
