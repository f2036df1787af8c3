-- ===== src/Playlist/Swap.antt =====
-- src/playlist_edit.c: `playlist_swap_songs`.

use mpd.Base.{
  ℕ, ◌<◌, ◌≤◌, ◌≡◌, ◌⊎◌, refl, ap, ◌∙◌, not, ◌||◌, some, ltb, arith, Bool-cases, inl, inr,
}
use mpd.Queue.{Queue, get, valid_position}
use mpd.Queue.Edit.{swap}
use mpd.Queue.Random.{GRand}
use mpd.Queue.Swap.{transposed, swap-Relocated}
use mpd.Playlist.{Playlist, get_queued_song}
use mpd.Playlist.Edit.{success, bad_range, increment_version, swap_songs}
use mpd.Playlist.Delete.{increment_version-IsReady, update-song_at}
use mpd.Playlist.Inv.{IsOk}
use mpd.Playlist.Update.{update_queued_song-Updated, get_queued_song-IsReady}
use mpd.Playlist.Correct.{Corrected, fix_swapped-Corrected, Corrected-IsReady}

module _ (g : GRand) where
  -- What swapping the songs at `a` and `b` leaves: a playlist in order with the two songs exchanged, all
  -- others in their places, and the same song as current song.
  pub record Swapped (p : Playlist g.State) (a b : ℕ) (p' : Playlist g.State) : Type 0 where
    pub ok : IsOk p'
    pub song_at : (i : ℕ) → i < p.queue.length → get p'.queue i ≡ get p.queue (transposed a b i)
    pub current_song :
        (c : ℕ)
        → p.current ≡ some c
        → (o : ℕ) × (p'.current ≡ some o) × (p'.queue.order o ≡ transposed a b (p.queue.order c))

  get-Corrected :
      (p p' : Playlist g.State) (a b i : ℕ)
      → Corrected g p a b p'
      → get p'.queue i ≡ get (swap p.queue a b) i
  unfolding get
  get-Corrected p p' a b i k = ap (λ (t : Playlist g.State). get t.queue i) k.rest

  -- On a playlist in order `playlist_swap_songs` returns. It answers with a bad range, and changes nothing,
  -- exactly if one of the positions is not in use; and else with success, and leaves a playlist in order
  -- with the two songs exchanged, all others in their places, and the same song as current song.
  pub swap_songs-Swapped :
      (p : Playlist g.State) (a b : ℕ)
      → IsOk p
      → (((p.queue.length ≤ a) ⊎ (p.queue.length ≤ b)) × (swap_songs g p a b ≡ some (bad_range, p)))
        ⊎ ((a < p.queue.length)
            × (b < p.queue.length)
            × (p' : Playlist g.State) × (swap_songs g p a b ≡ some (success, p'))
            × Swapped p a b p')
  unfolding swap_songs valid_position
  swap_songs-Swapped p a b ok =
      elim (Bool-cases (not (ltb a p.queue.length) || not (ltb b p.queue.length))) [
        | inl t ↦ inl (
          elim (Bool-cases (ltb a p.queue.length)) [
            | inl l ↦ inr (ground arith)
            | inr l ↦ inl (ground arith)
          ],
          simp t refl,
        )
        | inr f ↦
            let la : a < p.queue.length = ground arith in
            let lb : b < p.queue.length = ground arith in
            let (p1, fixed, k) = fix_swapped-Corrected g p a b ok la lb in
            let prev = get_queued_song g p in
            let (ready, rest, ver) =
              increment_version-IsReady g p1 prev
                (Corrected-IsReady g p p1 a b prev k (get_queued_song-IsReady g p ok)) in
            let (p', updated, u) =
              update_queued_song-Updated g (increment_version g p1) prev ready in
            let moved = swap-Relocated ok.valid a b la lb in
            inr (
              la,
              lb,
              p',
              simp f (rw fixed (rw updated refl)),
              record {
                ok = u.ok;
                song_at = λ i l.
                    update-song_at g (increment_version g p1) p' i u
                    ∙ ver.song_at i
                    ∙ get-Corrected p p1 a b i k
                    ∙ moved.song_at i l;
                current_song = λ c e.
                    let (o1, found1, at1) = k.current_song c e in
                    let (o, found, at) =
                      u.current_song o1 (ap (λ (t : Playlist g.State). t.current) rest ∙ found1) in
                    (o, found, at ∙ ap (λ (t : Queue). t.order o1) ver.rest ∙ at1);
              },
            )
      ]
