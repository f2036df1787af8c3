-- ===== src/Playlist/Shuffling.antt =====
-- src/playlist_edit.c: `playlist_shuffle`, on a playlist in order.

use mpd.Base.{
  uint_mod, if-true, if-false, add_uint, ℕ, ◌+◌, ◌<◌, ◌≤◌, ◌≡◌, refl, ap, ◌∙◌, true, ◌&&◌, Option,
  none, some, ltb, leb, if◌then◌else◌, arith, Bool-cases, Option-cases, inl, inr,
}
use mpd.Queue.{Queue, Song, order_to_position}
use mpd.Queue.Edit.{swap}
use mpd.Queue.Find.{position_to_order-finds}
use mpd.Queue.Random.{GRand, shuffle_range}
use mpd.Queue.Shuffle.{shuffle_range-Shuffled}
use mpd.Queue.Swap.{swap-Relocated, swap-IsValid}
use mpd.Playlist.{>>=-some, Playlist, is_some, get_queued_song}
use mpd.Playlist.Edit.{increment_version}
use mpd.Playlist.Shuffle.{put_first, keep_playing, shuffle}
use mpd.Playlist.Inv.{IsOk, IsReady}
use mpd.Playlist.Delete.{increment_version-IsReady}
use mpd.Playlist.Update.{update_queued_song-Updated, get_queued_song-IsReady}
use mpd.Playlist.Playing.{Keeps}

module _ (g : GRand) where
  -- the current song at the front of the range, and where the range then starts
  put_first-IsReady :
      (p : Playlist g.State) (prev : Option Song) (start at : ℕ)
      → IsReady p prev
      → start < p.queue.length
      → at < p.queue.length
      → is_some p.current ≡ true
      → (p' : Playlist g.State) × (put_first g p start at ≡ some (p', start + 1))
        × IsReady p' prev
        × (p'.queue.length ≡ p.queue.length)
  unfolding put_first
  put_first-IsReady p prev start at ready ls la cur =
      let v = swap-IsValid ready.valid start at ls la in
      let rest = (swap-Relocated ready.valid start at ls la).rest in
      let len : (swap p.queue start at).length ≡ p.queue.length =
        ap (λ (t : Queue). t.length) rest in
      elim (Bool-cases (swap p.queue start at).random) [
        | inl r ↦
            let (o, found, lo, _) = position_to_order-finds v start (ground (arith, len)) in
            (
              record p { queue = swap p.queue start at; current = some o },
              if-true _ _ r ∙ >>=-some _ found,
              record {
                valid = v;
                current_lt = λ c e. ground (arith, lo);
                has_current = λ pl. refl;
                agree = ready.agree;
              },
              len,
            )
        | inr r ↦ (
          record p { queue = swap p.queue start at; current = some start },
          if-false _ _ r,
          record {
            valid = v;
            current_lt = λ c e. ground (arith, len);
            has_current = λ pl. refl;
            agree = ready.agree;
          },
          len,
        )
      ]

  keep_playing-IsReady :
      (p : Playlist g.State) (start end : ℕ)
      → IsOk p
      → start + 1 < end
      → end ≤ p.queue.length
      → (p' : Playlist g.State) × (start' : ℕ) × (keep_playing g p start end ≡ some (p', start'))
        × IsReady p' (get_queued_song g p)
        × (p'.queue.length ≡ p.queue.length)
        × (start' ≤ end)
  unfolding keep_playing order_to_position
  keep_playing-IsReady p start end ok lt le =
      let ready = get_queued_song-IsReady g p ok in
      elim (Bool-cases (p.playing && is_some p.current)) [
        | inr f ↦ (
          record p { current = none },
          start,
          if-false _ _ f,
          record {
            valid = ready.valid;
            current_lt = λ c e. absurd (ground arith);
            has_current = λ pl. absurd (ground (arith, pl, f, ok.has_current));
            agree = ready.agree;
          },
          refl,
          omega arith,
        )
        | inl t ↦ elim (Option-cases p.current) [
          | inl n ↦ absurd (ground (arith, n, t))
          | inr (c, e) ↦
              let at = p.queue.order c in
              let la : at < p.queue.length = ok.valid.permutes.below c (ok.current_lt c e) in
              elim (Bool-cases (leb start at && ltb at end)) [
                | inr f ↦ (
                  p,
                  start,
                  if-true _ _ t ∙ >>=-some _ e ∙ if-false _ _ f,
                  ready,
                  refl,
                  omega arith,
                )
                | inl h ↦
                    let (p', put, ready', len) =
                      put_first-IsReady p (get_queued_song g p) start at ready (omega arith) la
                        (ground (arith, t)) in
                    (
                      p',
                      start + 1,
                      if-true _ _ t ∙ >>=-some _ e ∙ if-true _ _ h ∙ put,
                      ready',
                      len,
                      omega arith,
                    )
              ]
        ]
      ]

  pub shuffle-Keeps :
      (p : Playlist g.State) (start end : ℕ)
      → IsOk p
      → start + 1 < uint_mod
      → Keeps (shuffle g p start end)
  unfolding shuffle
  shuffle-Keeps p start end ok small =
      let end' = if ltb p.queue.length end then p.queue.length else end in
      elim (Bool-cases (leb end' (add_uint start 1))) [
        | inl t ↦ (p, if-true _ _ t, ok)
        | inr f ↦
            let (p1, s1, kept, ready, len, le) =
              keep_playing-IsReady p start end' ok (ground arith) (ground arith) in
            let sh =
              shuffle_range-Shuffled g p1.queue p1.rand s1 end' ready.valid le
                (ground (arith, len)) in
            let (q, s) = shuffle_range g p1.queue p1.rand s1 end' in
            let same : q.length ≡ p1.queue.length =
              ap (λ (t : Queue). t.length) sh.relocated.rest in
            let p2 : Playlist g.State = record p1 { queue = q; rand = s } in
            let prev = get_queued_song g p in
            let (ready2, rest, ver) = increment_version-IsReady g p2 prev (record {
              valid = sh.valid;
              current_lt = λ c e. ground (arith, same, ready.current_lt c e);
              has_current = ready.has_current;
              agree = ready.agree;
            }) in
            let (p3, updated, u) =
              update_queued_song-Updated g (increment_version g p2) prev ready2 in
            (p3, if-false _ _ f ∙ >>=-some _ kept ∙ updated, u.ok)
      ]
