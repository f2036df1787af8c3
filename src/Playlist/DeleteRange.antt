-- ===== src/Playlist/DeleteRange.antt =====
-- src/playlist_edit.c: `playlist_delete_range`.
use mpd.Base.{
  ℕ, zero, suc, ◌+◌, ◌-◌, ◌<◌, ◌≤◌, ◌≡◌, ◌⊎◌, refl, ap, ◌∙◌, Option, some, ltb, leb, if◌then◌else◌,
  arith, Bool-cases, inl, inr,
}
use mpd.Queue.{Song, get}
use mpd.Queue.Gap.{raised}
use mpd.Queue.Random.{GRand}
use mpd.Playlist.{Playlist, Player, get_queued_song}
use mpd.Playlist.Edit.{success, bad_range, increment_version, delete_each, delete_range}
use mpd.Playlist.Remove.{delete_internal-Removed}
use mpd.Playlist.Delete.{increment_version-IsReady, update-song_at}
use mpd.Playlist.Inv.{IsOk, IsReady}
use mpd.Playlist.Update.{update_queued_song-Updated, get_queued_song-IsReady}

-- where the song at `i` stood before `count` songs at `start` were deleted
abbrev pub behind : ℕ → ℕ → ℕ → ℕ
behind start count i = if ltb i start then i else i + count

module _ (g : GRand) where
  -- What the loop has done after `rounds` rounds.
  record Shortened (p : Playlist g.State) (start rounds : ℕ) (p' : Playlist g.State)
      (prev : Option Song) : Type 0 where
    ready : IsReady p' prev
    shorter : p'.queue.length + rounds ≡ p.queue.length
    song_at : (i : ℕ) → i < p'.queue.length → get p'.queue i ≡ get p.queue (behind start rounds i)

  delete_each-Shortened :
      (pc : Player) (start rounds : ℕ) (p : Playlist g.State) (prev : Option Song)
      → IsReady p prev
      → start + rounds ≤ p.queue.length
      → (p' : Playlist g.State) × (prev' : Option Song) × (delete_each g pc start rounds (p, prev)
          ≡ some (p', prev'))
        × Shortened p start rounds p' prev'
  unfolding delete_each
  delete_each-Shortened pc start zero p prev ready le = (
    p,
    prev,
    refl,
    record {
      ready = ready;
      shorter = omega arith;
      song_at = λ i l. ap (get p.queue) (ground arith);
    },
  )
  delete_each-Shortened pc start (suc rounds) p prev ready le =
      let (p1, prev1, done, r) =
        delete_internal-Removed g pc p (start + rounds) prev (omega arith) ready in
      let (p', prev', found, s) =
        delete_each-Shortened pc start rounds p1 prev1 r.ready
          (ground (arith, r.deleted.shorter)) in
      (
        p',
        prev',
        rw done found,
        record {
          ready = s.ready;
          shorter = ground (arith, s.shorter, r.deleted.shorter);
          song_at = λ i l.
              let at : behind start rounds i < p1.queue.length = ground (arith, s.shorter) in
              let same : raised (start + rounds) (behind start rounds i)
                  ≡ behind start (suc rounds) i =
                ground arith in
              s.song_at i l ∙ r.deleted.song_at (behind start rounds i) at ∙ ap (get p.queue) same;
        },
      )

  -- What deleting `count` songs at `start` leaves.
  pub record Cut (p : Playlist g.State) (start count : ℕ) (p' : Playlist g.State) : Type 0 where
    pub ok : IsOk p'
    pub shorter : p'.queue.length + count ≡ p.queue.length
    pub song_at :
        (i : ℕ) → i < p'.queue.length → get p'.queue i ≡ get p.queue (behind start count i)

  -- On a playlist in order `playlist_delete_range` always returns. A range behind the last song is bad, an
  -- empty one changes nothing, and else it returns success and leaves a playlist in order without the
  -- songs from `start` up to `end`, or up to the last one if `end` is behind it, with all others in their
  -- order.
  pub delete_range-Cut :
      (pc : Player) (p : Playlist g.State) (start end : ℕ)
      → IsOk p
      → ((p.queue.length ≤ start) × (delete_range g pc p start end ≡ some (bad_range, p)))
        ⊎ ((start < p.queue.length)
            × (end ≤ start)
            × (delete_range g pc p start end ≡ some (success, p)))
        ⊎ ((start < p.queue.length)
            × (start < end)
            × (p' : Playlist g.State) × (delete_range g pc p start end ≡ some (success, p'))
            × Cut p start ((if ltb p.queue.length end then p.queue.length else end) - start) p')
  unfolding delete_range
  delete_range-Cut pc p start end ok = elim (Bool-cases (leb p.queue.length start)) [
    | inl t ↦ inl (ground arith, simp t refl)
    | inr f ↦
        let n = if ltb p.queue.length end then p.queue.length else end in
        elim (Bool-cases (leb n start)) [
          | inl t ↦ inr (inl (ground arith, ground arith, simp f (simp t refl)))
          | inr f' ↦
              let prev = get_queued_song g p in
              let (p1, prev1, done, s) =
                delete_each-Shortened pc start (n - start) p prev (get_queued_song-IsReady g p ok)
                  (ground arith) in
              let (ready, rest, ver) = increment_version-IsReady g p1 prev1 s.ready in
              let (p', updated, u) =
                update_queued_song-Updated g (increment_version g p1) prev1 ready in
              inr (
                inr (
                  ground arith,
                  ground arith,
                  p',
                  simp f (simp f' (rw done (rw updated refl))),
                  record {
                    ok = u.ok;
                    shorter = ground (arith, u.same_rest, ver.rest, s.shorter);
                    song_at = λ i l.
                        update-song_at g (increment_version g p1) p' i u
                        ∙ ver.song_at i
                        ∙ s.song_at i (ground (arith, u.same_rest, ver.rest));
                  },
                ))
        ]
  ]
