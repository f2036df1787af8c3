-- ===== src/Playlist/Modes.antt =====
-- src/playlist.c: changing "repeat", "single", "consume" and "random".
use mpd.Base.{ℕ, ◌≡◌, refl, ap, ◌∙◌, Bool, true, false, some}
use mpd.Queue.{Queue}
use mpd.Queue.Inv.{modes-IsValid}
use mpd.Queue.Random.{GRand}
use mpd.Playlist.{
  Playlist, emit, options, same_flag, set_repeat, set_single, get_queued_song, update_queued_song,
  order_to_queue,
}
use mpd.Playlist.Inv.{IsOk}
use mpd.Playlist.Update.{update_queued_song-Updated, get_queued_song-IsReady}

module _ (g : GRand) where
  -- other modes, and nothing else
  with_modes-IsOk :
      (p : Playlist g.State) (repeat_mode single consume : Bool)
      → IsOk p
      → IsOk (record p {
        queue = record p.queue { repeat_mode = repeat_mode; single = single; consume = consume };
      })
  with_modes-IsOk p repeat_mode single consume ok = record {
    valid = modes-IsValid repeat_mode single consume ok.valid;
    current_lt = ok.current_lt;
    queued_lt = ok.queued_lt;
    has_current = ok.has_current;
  }

  pub emit-IsOk : (p : Playlist g.State) → IsOk p → IsOk (emit options p)
  emit-IsOk p ok = record {
    valid = ok.valid;
    current_lt = ok.current_lt;
    queued_lt = ok.queued_lt;
    has_current = ok.has_current;
  }

  -- What a change of "repeat" or "single" leaves: a playlist in order with the same songs at their
  -- positions and the same current song, which plays on; the song that is queued while playing is the
  -- one that follows under the new modes.
  pub record Switched (p : Playlist g.State) (modes : Queue) (p' : Playlist g.State) : Type 0 where
    pub ok : IsOk p'
    pub queue_same : p'.queue ≡ record modes { order = p'.queue.order }
    pub still_playing : p'.playing ≡ p.playing
    pub current_song :
        (c : ℕ)
        → p.current ≡ some c
        → (o : ℕ) × (p'.current ≡ some o) × (p'.queue.order o ≡ p.queue.order c)
    pub queued_next : p.playing ≡ true → p'.queued ≡ order_to_queue g (record p { queue = modes })

  switched :
      (p : Playlist g.State) (modes : Queue)
      → modes.order ≡ p.queue.order
      → IsOk (record p { queue = modes })
      → (p' : Playlist g.State) × (update_queued_song g
            (record p { queue = modes })
            (get_queued_song g (record p { queue = modes }))
          ≡ some p')
        × Switched p modes (emit options p')
  switched p modes same ok =
      let p0 : Playlist g.State = record p { queue = modes } in
      let (p', found, u) =
        update_queued_song-Updated g p0 (get_queued_song g p0) (get_queued_song-IsReady g p0 ok) in
      (
        p',
        found,
        record {
          ok = emit-IsOk p' u.ok;
          queue_same = ap (λ (t : Playlist g.State). t.queue) u.same_rest;
          still_playing = ap (λ (t : Playlist g.State). t.playing) u.same_rest;
          current_song = λ c e.
              let (o, at, eq) = u.current_song c e in (o, at, eq ∙ ap (λ (f : ℕ → ℕ). f c) same);
          queued_next = u.queued_next;
        },
      )

  pub set_repeat-Switched :
      (p : Playlist g.State) (status : Bool)
      → IsOk p
      → same_flag status p.queue.repeat_mode ≡ false
      → (p' : Playlist g.State) × (set_repeat g p status ≡ some p')
        × Switched p (record p.queue { repeat_mode = status }) p'
  unfolding set_repeat
  set_repeat-Switched p status ok changed =
      let (p', found, s) =
        switched p (record p.queue { repeat_mode = status }) refl
          (with_modes-IsOk p status p.queue.single p.queue.consume ok) in
      (emit options p', rw changed (rw found refl), s)

  -- On a playlist in order `playlist_set_single` with another value than the present one returns, and
  -- leaves a playlist in order with that value, the same songs and the same current song; while playing
  -- the song that follows it under the new value is queued.
  pub set_single-Switched :
      (p : Playlist g.State) (status : Bool)
      → IsOk p
      → same_flag status p.queue.single ≡ false
      → (p' : Playlist g.State) × (set_single g p status ≡ some p')
        × Switched p (record p.queue { single = status }) p'
  unfolding set_single
  set_single-Switched p status ok changed =
      let (p', found, s) =
        switched p (record p.queue { single = status }) refl
          (with_modes-IsOk p p.queue.repeat_mode status p.queue.consume ok) in
      (emit options p', rw changed (rw found refl), s)
