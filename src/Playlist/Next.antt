-- ===== src/Playlist/Next.antt =====
-- src/playlist.c: `playlist_get_next_song`.
use mpd.Base.{ℕ, ◌<◌, ◌≡◌, false, Option, none, some, arith}
use mpd.Queue.{order_to_position, next_order}
use mpd.Queue.Random.{GRand}
use mpd.Playlist.{Playlist, get_next_song}

-- the position of an order number
abbrev pub position_of {ℓ} : {R : Type ℓ} → Playlist R → Option ℕ → Option ℕ
position_of p none = none
position_of p (some o) = some (order_to_position p.queue o)

-- Outside consume mode, with a current song, the position that `playlist_get_next_song` reports is that
-- of the order number which `queue_next_order` plays next.
pub get_next_song-next_order :
    (g : GRand) (p : Playlist g.State) (c : ℕ)
    → p.current ≡ some c
    → c < p.queue.length
    → p.queue.consume ≡ false
    → get_next_song g p ≡ position_of p (next_order p.queue c)
unfolding get_next_song next_order
get_next_song-next_order g p c e lt off = ground arith
