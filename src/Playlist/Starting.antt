-- ===== src/Playlist/Starting.antt =====
-- src/playlist_control.c: `playlist_play` and `playlist_seek_song`, on a playlist in order.
use mathlib.Core.Path.{subst}
use mpd.Base.{
  if-true, if-false, ℕ, ◌<◌, ◌≡◌, refl, sym, ap, ◌∙◌, true, false, not, ◌&&◌, Option, none, some,
  if◌then◌else◌, arith, Bool-cases, Option-cases, inl, inr,
}
use mpd.Queue.{Queue, get_order, valid_position, is_empty, to_position}
use mpd.Queue.Edit.{swap_order}
use mpd.Queue.Inv.{IsValid}
use mpd.Queue.Find.{position_to_order-finds}
use mpd.Queue.Random.{GRand}
use mpd.Queue.Swap.{swap_order-IsValid, swap_order_rest}
use mpd.Playlist.{
  >>=-some, Playlist, is_some, tell, clear_error, set_pause, seek, play_order, update_queued_song,
}
use mpd.Playlist.Edit.{success, bad_range, no_such_song, is_order}
use mpd.Playlist.Control.{order_to_play, swap_current, start_playing, play_song, play_id, seek_song}
use mpd.Playlist.Inv.{IsOk}
use mpd.Playlist.Update.{update_queued_song-Updated}
use mpd.Playlist.Playing.{Keeps, Answers, same-IsOk, play_order-IsOk}

module _ (g : GRand) where
  -- in random mode, with the current song at the order number `c`
  swap_current-Keeps :
      (p : Playlist g.State) (i c : ℕ)
      → IsValid p.queue
      → p.queue.random ≡ true
      → i < p.queue.length
      → c < p.queue.length
      → Keeps (
          some (
            play_order g
              (record p { queue = swap_order p.queue i c; stop_on_error = false; error_count = 0 })
              c))
  swap_current-Keeps p i c v r li lc =
      let p1 : Playlist g.State = record p {
        queue = swap_order p.queue i c;
        stop_on_error = false;
        error_count = 0;
      } in
      let len : (swap_order p.queue i c).length ≡ p.queue.length =
        ap (λ (t : Queue). t.length) (swap_order_rest p.queue i c) in
      (
        play_order g p1 c,
        refl,
        play_order-IsOk g p1 c (swap_order-IsValid v i c li lc r) (ground (arith, len)),
      )

  front_current :
      (p : Playlist g.State) {p1 : Playlist g.State} (i : ℕ) {c : ℕ}
      → p.queue.random ≡ true
      → (if p.playing then p else record p { current = some 0 }) ≡ p1
      → p1.current ≡ some c
      → start_playing g p i
        ≡ some (
            play_order g
              (record p1 {
                queue = swap_order p1.queue i c;
                stop_on_error = false;
                error_count = 0;
              })
              c)
  unfolding start_playing swap_current
  front_current p i r same e =
      >>=-some _ (if-true _ _ r ∙ ap (λ t. swap_current g t i) same ∙ >>=-some _ e)

  start_playing-Keeps :
      (p : Playlist g.State) (i : ℕ) → IsOk p → i < p.queue.length → Keeps (start_playing g p i)
  unfolding start_playing
  start_playing-Keeps p i ok lt = elim (Bool-cases p.queue.random) [
    | inr f ↦
        let p1 : Playlist g.State = record p { stop_on_error = false; error_count = 0 } in
        (play_order g p1 i, >>=-some _ (if-false _ _ f), play_order-IsOk g p1 i ok.valid lt)
    | inl r ↦ elim (Bool-cases p.playing) [
      | inr f ↦
          let (p1, e, ok1) =
            swap_current-Keeps (record p { current = some 0 }) i 0 ok.valid r lt (omega arith) in
          (p1, front_current p i r (if-false _ _ f) refl ∙ e, ok1)
      | inl t ↦ elim (Option-cases p.current) [
        | inl n ↦ absurd (ground (arith, n, t, ok.has_current))
        | inr (c, s) ↦
            let (p1, e, ok1) = swap_current-Keeps p i c ok.valid r lt (ok.current_lt c s) in
            (p1, front_current p i r (if-true _ _ t) s ∙ e, ok1)
      ]
    ]
  ]

  position-Keeps :
      (p : Playlist g.State) (song : ℕ)
      → IsOk p
      → song < p.queue.length
      → (i : ℕ) × (order_to_play g p (some song) ≡ some i) × (i < p.queue.length)
  unfolding order_to_play
  position-Keeps p song ok lt = elim (Bool-cases p.queue.random) [
    | inr f ↦ (song, if-false _ _ f, lt)
    | inl r ↦
        let (o, found, lo, at) = position_to_order-finds ok.valid song lt in
        (o, if-true _ _ r ∙ found, lo)
  ]

  some_order :
      (p : Playlist g.State)
      → IsOk p
      → 0 < p.queue.length
      → (i : ℕ) × (order_to_play g p none ≡ some i) × (i < p.queue.length)
  unfolding order_to_play
  some_order p ok pos = elim (Option-cases p.current) [
    | inl n ↦ (0, ground (arith, n), pos)
    | inr (c, e) ↦ (c, ground (arith, e), ok.current_lt c e)
  ]

  pub play_song-Answers :
      (p : Playlist g.State) (song : Option ℕ) → IsOk p → Answers (play_song g p song)
  unfolding play_song valid_position is_empty
  play_song-Answers p none ok =
      let p1 : Playlist g.State = tell clear_error p in
      let ok1 : IsOk p1 = same-IsOk p p1 ok refl in
      elim (Bool-cases (is_empty p.queue)) [
        | inl t ↦ (success, p1, if-true _ _ t, ok1)
        | inr f ↦ elim (Bool-cases p.playing) [
          | inl t ↦ (
            success,
            tell (set_pause false) p1,
            if-false _ _ f ∙ if-true _ _ t,
            same-IsOk p1 (tell (set_pause false) p1) ok1 refl,
          )
          | inr s ↦
              let (i, found, lt) = some_order p1 ok1 (ground arith) in
              let (p2, started, ok2) = start_playing-Keeps p1 i ok1 lt in
              (
                success,
                p2,
                if-false _ _ f ∙ if-false _ _ s ∙ >>=-some _ found ∙ >>=-some _ started,
                ok2,
              )
        ]
      ]
  play_song-Answers p (some song) ok =
      let p1 : Playlist g.State = tell clear_error p in
      let ok1 : IsOk p1 = same-IsOk p p1 ok refl in
      elim (Bool-cases (valid_position p.queue song)) [
        | inr f ↦ (bad_range, p1, if-true _ _ (ap not f), ok1)
        | inl t ↦
            let (i, found, lt) = position-Keeps p1 song ok1 (ground arith) in
            let (p2, started, ok2) = start_playing-Keeps p1 i ok1 lt in
            (success, p2, if-false _ _ (ap not t) ∙ >>=-some _ found ∙ >>=-some _ started, ok2)
      ]

  -- The song that is sought is the current one, and its successor is queued anew.
  sought-Keeps :
      (p : Playlist g.State) (i : ℕ)
      → IsValid p.queue
      → i < p.queue.length
      → ((c : ℕ) → p.current ≡ some c → c < p.queue.length)
      → (p.playing ≡ true → is_some p.current ≡ true)
      → Keeps (update_queued_song g (record p { queued = none }) none)
  sought-Keeps p i v lt lts has =
      let (p', updated, u) =
        update_queued_song-Updated g (record p { queued = none }) none
          (record { valid = v; current_lt = lts; has_current = has; agree = λ pl. refl }) in
      (p', updated, u.ok)

  -- when the player seeks
  pub seek_song-Answers :
      (p : Playlist g.State) (song seek_time : ℕ)
      → IsOk p
      → Answers (seek_song g true p song seek_time)
  unfolding seek_song valid_position
  seek_song-Answers p song seek_time ok = elim (Bool-cases (valid_position p.queue song)) [
    | inr f ↦ (bad_range, p, if-true _ _ (ap not f), ok)
    | inl t ↦
        let (i, found, lt) = position-Keeps p song ok (ground arith) in
        let p1 : Playlist g.State = record (tell clear_error p) {
          stop_on_error = true;
          error_count = 0;
        } in
        let here = p1.playing && is_order p1.current i in
        let p2 : Playlist g.State =
          if here then p1 else record p1 { playing = true; current = some i } in
        let p3 = tell (seek (get_order p2.queue i) seek_time) p2 in
        let rest : p2.queue ≡ p.queue = ground arith in
        let (p4, updated, ok4) =
          sought-Keeps p3 i (subst IsValid (sym rest) ok.valid) (ground (arith, rest))
            (λ c e. elim (Bool-cases here) [
              | inl h ↦ ground (arith, h, rest, ok.current_lt c)
              | inr h ↦ ground (arith, h, rest)
            ])
            (λ pl. elim (Bool-cases here) [
              | inl h ↦ ground (arith, h, ok.has_current)
              | inr h ↦ ground (arith, h)
            ]) in
        (success, p4, if-false _ _ (ap not t) ∙ >>=-some _ found ∙ >>=-some _ updated, ok4)
  ]

  pub play_id-Answers : (p : Playlist g.State) (id : Option ℕ) → IsOk p → Answers (play_id g p id)
  unfolding play_id
  play_id-Answers p none ok = play_song-Answers p none ok
  play_id-Answers p (some id) ok = elim (Option-cases (to_position p.queue id)) [
    | inl n ↦ (no_such_song, p, rw (n, play_id), ok)
    | inr (song, e) ↦
        let (r, p', played, ok') = play_song-Answers p (some song) ok in
        (r, p', rw (e, play_id) played, ok')
  ]
