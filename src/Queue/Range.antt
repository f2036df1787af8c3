-- ===== src/Queue/Range.antt =====
-- src/queue.c: the arithmetic of `queue_move_range`.
use mpd.Base.{ℕ, ◌+◌, ◌-◌, ◌^◌, ◌<◌, ◌≤◌, ◌≡◌, ltb, leb, if◌then◌else◌, ◌&&◌, arith}
use mpd.Queue.Edit.{moved_range}
use mpd.Queue.Relocate.{Bijects}

-- `moved_range` for a block of `w` songs, without the wrap-around of its last case.
unfoldable pub shifted : ℕ → ℕ → ℕ → ℕ → ℕ
shifted start w to p =
    if leb (start + w) p && ltb p (to + w)
    then p - w
    else if ltb p start && leb to p
    then p + w
    else if leb start p && ltb p (start + w)
    then p + to - start
    else p

pub moved_range-eq-shifted :
    (n start w to p : ℕ)
    → n < 2 ^ 31
    → start + w ≤ n
    → to + w ≤ n
    → p < n
    → moved_range start (start + w) to p ≡ shifted start w to p
unfolding moved_range shifted
moved_range-eq-shifted n start w to p small fits room lt = ground arith

shifted-lt : (n start w to p : ℕ) → start + w ≤ n → to + w ≤ n → p < n → shifted start w to p < n
unfolding shifted
shifted-lt n start w to p fits room lt = ground arith

shifted-shifted : (start w to p : ℕ) → 0 < w → shifted start w to (shifted to w start p) ≡ p
unfolding shifted
shifted-shifted start w to p pos = ground arith

-- Moving the block back is the inverse.
pub moved_range-Bijects :
    (n start w to : ℕ)
    → n < 2 ^ 31
    → 0 < w
    → start + w ≤ n
    → to + w ≤ n
    → Bijects n (moved_range start (start + w) to) (moved_range to (to + w) start)
moved_range-Bijects n start w to small pos fits room = record {
  f_lt = λ p lt. rw (forth p lt) (shifted-lt n start w to p fits room lt);
  g_lt = λ p lt. rw (back p lt) (shifted-lt n to w start p room fits lt);
  f_g = λ p lt.
      rw (back p lt, forth _ (shifted-lt n to w start p room fits lt))
        (shifted-shifted start w to p pos);
  g_f = λ p lt.
      rw (forth p lt, back _ (shifted-lt n start w to p fits room lt))
        (shifted-shifted to w start p pos);
}
  where
    forth : (p : ℕ) → p < n → moved_range start (start + w) to p ≡ shifted start w to p
    forth p lt = moved_range-eq-shifted n start w to p small fits room lt

    back : (p : ℕ) → p < n → moved_range to (to + w) start p ≡ shifted to w start p
    back p lt = moved_range-eq-shifted n to w start p small room fits lt
