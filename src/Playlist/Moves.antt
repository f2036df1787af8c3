-- ===== src/Playlist/Moves.antt =====
-- src/playlist_edit.c: `playlist_move_range`.
use mathlib.Core.Path.{subst}
use mpd.Base.{
  ℕ, ◌+◌, ◌-◌, ◌*◌, ◌^◌, ◌<◌, ◌≤◌, ◌≡◌, ◌≢◌, ◌⊎◌, refl, sym, ap, ◌∙◌, true, some, leb, ◌==◌, arith,
  Bool-cases, inl, inr, uint_mod,
}
use mpd.Queue.{Queue, get, valid_position}
use mpd.Playlist.Delete.{increment_version-IsReady, update-song_at}
use mpd.Queue.Edit.{move_range, moved_range}
use mpd.Queue.Inv.{IsValid}
use mpd.Queue.Move.{move_range-Moved}
use mpd.Queue.Random.{GRand}
use mpd.Playlist.{Playlist, get_queued_song}
use mpd.Playlist.Edit.{success, bad_range, position, increment_version}
use mpd.Playlist.Move.{moved_current, fix_current, move_to, move_songs}
use mpd.Playlist.Moved.{
  moved_current-moved_range, moved_current-lt, fix_current_rest, fix_current-lt, fix_current-is,
}
use mpd.Playlist.Inv.{IsOk, IsReady}
use mpd.Playlist.Update.{update_queued_song-Updated, get_queued_song-IsReady}

module _ (g : GRand) where
  -- What moving [start, end) to `to` leaves: a playlist in order with the songs moved as a block, and,
  -- in random mode, or unless `current` is behind the block and behind `to` but before the end of the
  -- block at its new place, the same song as current song.
  pub record Rearranged (p : Playlist g.State) (start end to : ℕ) (p' : Playlist g.State)
      : Type 0 where
    pub ok : IsOk p'
    pub song_at :
        (i : ℕ)
        → i < p.queue.length
        → get p'.queue i ≡ get p.queue (moved_range to (to + (end - start)) start i)
    pub current_song :
        (c : ℕ)
        → p.current ≡ some c
        → (p.queue.random ≡ true) ⊎ (¬ ((end ≤ c) × (to < c) × (c < to + (end - start))))
        → (o : ℕ) × (p'.current ≡ some o)
          × (p'.queue.order o ≡ moved_range start end to (p.queue.order c))

  -- the playlist before the version is incremented
  abbrev pub block_moved : Playlist g.State → ℕ → ℕ → ℕ → Playlist g.State
  block_moved p start end to =
      fix_current g (record p { queue = move_range p.queue start end to }) start end to

  module _ (p : Playlist g.State) (start end to : ℕ) (ok : IsOk p) (lt : start < end)
      (le : end ≤ p.queue.length) (fits : to + (end - start) ≤ p.queue.length) where
    moved_length : (move_range p.queue start end to).length ≡ p.queue.length
    moved_length =
        ap (λ (t : Queue). t.length) ((move_range-Moved ok.valid start end to lt le fits).1.rest)

    pub block_moved-IsReady : IsReady (block_moved p start end to) (get_queued_song g p)
    block_moved-IsReady =
        let (b, m, v) = move_range-Moved ok.valid start end to lt le fits in
        let before = get_queued_song-IsReady g p ok in
        let p1 : Playlist g.State = record p { queue = move_range p.queue start end to } in
        let rest = fix_current_rest g p1 start end to in
        let (lts, some_same) =
          fix_current-lt g p1 start end to lt (ground (arith, moved_length))
            (ground (arith, moved_length))
            (λ c e. ground (arith, moved_length, ok.current_lt c e)) in
        record {
          valid = subst (λ (t : Playlist g.State). IsValid t.queue) (sym rest) v;
          current_lt = λ c e. ground (arith, rest, lts c e);
          has_current = λ pl. ground (arith, rest, some_same, ok.has_current);
          agree = λ pl. ground (arith, rest, before.agree);
        }

    block_moved-current :
        (c : ℕ)
        → p.current ≡ some c
        → (p.queue.random ≡ true) ⊎ (¬ ((end ≤ c) × (to < c) × (c < to + (end - start))))
        → start ≢ to
        → (o : ℕ) × ((block_moved p start end to).current ≡ some o)
          × ((block_moved p start end to).queue.order o
              ≡ moved_range start end to (p.queue.order c))
    block_moved-current c e away ne =
        let (b, m, v) = move_range-Moved ok.valid start end to lt le fits in
        let p1 : Playlist g.State = record p { queue = move_range p.queue start end to } in
        let same : (block_moved p start end to).queue ≡ p1.queue =
          ap (λ (t : Playlist g.State). t.queue) (fix_current_rest g p1 start end to) in
        let is = fix_current-is g p1 start end to c e in
        let mode : p1.queue.random ≡ p.queue.random = ap (λ (t : Queue). t.random) m.rest in
        let lc : c < p.queue.length = ok.current_lt c e in
        elim (Bool-cases p.queue.random) [
          | inl r ↦ (
            c,
            is ∙ ap some (ground (arith, mode, r)),
            ap (λ (t : Queue). t.order c) same ∙ m.order_moved r c lc,
          )
          | inr r ↦
              let (_, back) =
                moved_current-moved_range p.queue.length start end to c lt le fits lc
                  (ground (arith, ok.valid.fits, ok.valid.small)) ne in
              let eq : moved_current start end to c ≡ moved_range start end to c =
                back (elim away [ inl t ↦ absurd (ground (arith, t, r)) | inr n ↦ n ]) in
              let here : moved_current start end to c < (move_range p.queue start end to).length =
                ground (
                  arith,
                  moved_length,
                  moved_current-lt g p.queue.length start end to c lt le fits lc,
                ) in
              (
                moved_current start end to c,
                is ∙ ap some (ground (arith, mode, r)),
                ap (λ (t : Queue). t.order (moved_current start end to c)) same
                    ∙ v.in_place (mode ∙ r) (moved_current start end to c) here
                    ∙ eq
                    ∙ ap (moved_range start end to) (sym (ok.valid.in_place r c lc)),
              )
        ]

    -- The move of a block that is in use to another place where it fits.
    move_to-Rearranged :
        start ≢ to
        → (p' : Playlist g.State) × (move_to g p start end to ≡ some (success, p'))
          × Rearranged p start end to p'
    unfolding move_to
    move_to-Rearranged ne =
        let p1 = block_moved p start end to in
        let queued = get_queued_song g p in
        let (ready, rest, ver) = increment_version-IsReady g p1 queued block_moved-IsReady in
        let (p', updated, u) = update_queued_song-Updated g (increment_version g p1) queued ready in
        let m = (move_range-Moved ok.valid start end to lt le fits).1 in
        let same : p1.queue ≡ move_range p.queue start end to =
          ap (λ (t : Playlist g.State). t.queue)
            (fix_current_rest g (record p { queue = move_range p.queue start end to }) start end
              to) in
        (
          p',
          rw updated refl,
          record {
            ok = u.ok;
            song_at = λ i l.
                update-song_at g (increment_version g p1) p' i u
                ∙ ver.song_at i
                ∙ ap (λ t. get t i) same
                ∙ m.song_at i l;
            current_song = λ c e away.
                let (o, found, at) = block_moved-current c e away ne in
                let (o', found', at') =
                  u.current_song o (ap (λ (t : Playlist g.State). t.current) rest ∙ found) in
                (o', found', at' ∙ ap (λ (t : Queue). t.order o) ver.rest ∙ at);
          },
        )

  -- `playlist_move_range` of a non-empty range of `unsigned`s to a position that is an `int`, on a playlist in order, returns. It answers
  -- with a bad range, and then changes nothing, exactly if the range or its place is not in the queue.
  -- Otherwise it answers with success, and leaves the playlist as it was if the block is there already,
  -- and else one in order, with the songs moved as a block and, in random mode or with `current` outside
  -- the positions between `to` and the end of the moved block that are behind the block, the same current
  -- song.
  pub move_songs-Rearranged :
      (p : Playlist g.State) (start end to : ℕ)
      → IsOk p
      → start < end
      → end < uint_mod
      → to < 2 ^ 31
      → ((¬ ((end ≤ p.queue.length) × (to + (end - start) ≤ p.queue.length)))
          × (move_songs g p start end (position to) ≡ some (bad_range, p)))
        ⊎ ((end ≤ p.queue.length)
            × (to + (end - start) ≤ p.queue.length)
            × (p' : Playlist g.State) × (move_songs g p start end (position to)
                ≡ some (success, p'))
            × (((start ≡ to) × (p' ≡ p)) ⊎ Rearranged p start end to p'))
  unfolding move_songs valid_position
  move_songs-Rearranged p start end to ok lt small small' =
      let n_lt : p.queue.length * 4 < uint_mod = ground (arith, ok.valid.fits, ok.valid.small) in
      elim (Bool-cases (leb end p.queue.length)) [
        | inr beyond ↦ inl ((λ (a, b). ground arith), ground arith)
        | inl le ↦ elim (Bool-cases (leb (to + (end - start)) p.queue.length)) [
          | inr f ↦ inl ((λ (a, b). ground arith), ground arith)
          | inl t ↦
              let within : end ≤ p.queue.length = ground arith in
              let fits : to + (end - start) ≤ p.queue.length = ground arith in
              elim (Bool-cases (start == to)) [
                | inl e ↦ inr (within, fits, p, ground arith, inl (ground arith, refl))
                | inr e ↦
                    let (p', done, r) =
                      move_to-Rearranged p start end to ok lt within fits (ground arith) in
                    inr (within, fits, p', ground arith, inr r)
              ]
        ]
      ]
