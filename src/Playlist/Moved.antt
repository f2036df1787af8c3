-- ===== src/Playlist/Moved.antt =====
-- src/playlist_edit.c: the order number of the current song in `playlist_move_range`.

use mpd.Base.{
  ℕ, ◌+◌, ◌-◌, ◌<◌, ◌≤◌, ◌≡◌, ◌≢◌, ◌↔◌, ◌&&◌, some, ltb, leb, if◌then◌else◌, arith, Bool-cases,
  Option-cases, inl, inr, uint_mod,
}
use mpd.Queue.Edit.{moved_range}
use mpd.Queue.Random.{GRand}
use mpd.Playlist.{Playlist, is_some}
use mpd.Playlist.Move.{moved_current, fix_current}

-- Outside random mode `playlist_move_range` gives `current` the position to which the queue has moved
-- that song, for a move of [start, end) to `to`, exactly unless `current` is behind the block, behind
-- `to`, and before the end of the block at its new place.
pub moved_current-moved_range :
    (n start end to c : ℕ)
    → start < end
    → end ≤ n
    → to + (end - start) ≤ n
    → c < n
    → n < uint_mod
    → start ≢ to
    → (moved_current start end to c ≡ moved_range start end to c)
      ↔ ¬ ((end ≤ c) × (to < c) × (c < to + (end - start)))
unfolding moved_current moved_range
moved_current-moved_range n start end to c lt le fits lc small ne = (
  λ e (a, b, l). ground arith,
  λ away. elim (Bool-cases (leb end c && (ltb to c && ltb c (to + (end - start))))) [
    | inl t ↦ absurd (away (ground arith, ground arith, ground arith))
    | inr f ↦ ground arith
  ],
)

module _ (g : GRand) where
  pub moved_current-lt :
      (n start end to c : ℕ)
      → start < end
      → end ≤ n
      → to + (end - start) ≤ n
      → c < n
      → moved_current start end to c < n
  unfolding moved_current
  moved_current-lt n start end to c lt le fits lc = ground arith

  pub fix_current_rest :
      (p : Playlist g.State) (start end to : ℕ)
      → fix_current g p start end to ≡ record p { current = (fix_current g p start end to).current }
  unfolding fix_current
  fix_current_rest p start end to = ground arith

  pub fix_current-lt :
      (p : Playlist g.State) (start end to : ℕ)
      → start < end
      → end ≤ p.queue.length
      → to + (end - start) ≤ p.queue.length
      → ((c : ℕ) → p.current ≡ some c → c < p.queue.length)
      → ((c : ℕ) → (fix_current g p start end to).current ≡ some c → c < p.queue.length)
        × (is_some (fix_current g p start end to).current ≡ is_some p.current)
  unfolding fix_current
  fix_current-lt p start end to lt le fits h = elim (Option-cases p.current) [
    | inl n ↦ (λ c e. absurd (ground arith), ground arith)
    | inr (o, s) ↦ (
      λ c e.
          ground (arith, h o s, moved_current-lt p.queue.length start end to o lt le fits (h o s)),
      ground arith,
    )
  ]

  pub fix_current-is :
      (p : Playlist g.State) (start end to c : ℕ)
      → p.current ≡ some c
      → (fix_current g p start end to).current
        ≡ some (if p.queue.random then c else moved_current start end to c)
  unfolding fix_current
  fix_current-is p start end to c e = ground arith
