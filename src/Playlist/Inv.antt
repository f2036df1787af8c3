-- ===== src/Playlist/Inv.antt =====
-- What holds of a playlist between two calls of src/playlist*.c.
use mpd.Base.{ℕ, ◌<◌, ◌≡◌, true, Option, some}
use mpd.Queue.{Song}
use mpd.Queue.Inv.{IsValid}
use mpd.Playlist.{Playlist, is_some}

-- The queue is valid, `current` and, while playing, `queued` are order numbers of it, and while
-- playing there is a current song.
pub record IsOk {ℓ} {R : Type ℓ} (p : Playlist R) : Type 0 where
  pub valid : IsValid p.queue
  pub current_lt : (c : ℕ) → p.current ≡ some c → c < p.queue.length
  pub queued_lt : p.playing ≡ true → (o : ℕ) → p.queued ≡ some o → o < p.queue.length
  pub has_current : p.playing ≡ true → is_some p.current ≡ true

-- What `playlist_update_queued_song` needs: the same, but that `queued` need not be an order number; it
-- is one exactly if `prev` is a song (its assertion).
pub record IsReady {ℓ} {R : Type ℓ} (p : Playlist R) (prev : Option Song) : Type 0 where
  pub valid : IsValid p.queue
  pub current_lt : (c : ℕ) → p.current ≡ some c → c < p.queue.length
  pub has_current : p.playing ≡ true → is_some p.current ≡ true
  pub agree : p.playing ≡ true → is_some prev ≡ is_some p.queued
