-- ===== src/Playlist/Append.antt =====
-- src/playlist_edit.c: `playlist_append_song`.
use mathlib.Core.Path.{subst}
use mpd.Base.{
  ℕ, ◌+◌, ◌<◌, ◌≡◌, ◌≢◌, ◌⊎◌, refl, sym, ap, ◌∙◌, false, ◌&&◌, Option, none, some, ltb, arith,
  Bool-cases, inl, inr,
}
use mpd.Queue.{Queue, Song, get, is_full, to_position}
use mpd.Queue.Edit.{swap_order}
use mpd.Queue.Inv.{IsValid}
use mpd.Queue.Append.{Appended, append-Appended}
use mpd.Queue.Version.{Versioned}
use mpd.Queue.Random.{GRand, shuffle_order_last}
use mpd.Queue.Shuffle.{shuffle_order_last-OnlyOrder}
use mpd.Playlist.{Playlist, get_queued_song}
use mpd.Playlist.Edit.{
  success, too_large, increment_version, shuffle_start, shuffle_last, append_song,
}
use mpd.Playlist.Delete.{increment_version-IsReady, update-song_at}
use mpd.Playlist.Inv.{IsOk, IsReady}
use mpd.Playlist.Update.{Updated, update_queued_song-Updated, get_queued_song-IsReady}

module _ (g : GRand) where
  shuffle_order_last-below :
      (q : Queue) (s : g.State) (start end o : ℕ)
      → start < end
      → o < start
      → (shuffle_order_last g q s start end).0.order o ≡ q.order o
  unfolding shuffle_order_last swap_order
  shuffle_order_last-below q s start end o lt below = ground (arith, g.in_range s start end lt)

  -- The shuffling changes only the order, at and behind `shuffle_start`, and the generator.
  pub record Mixed (p p' : Playlist g.State) : Type 0 where
    pub valid : IsValid p'.queue
    pub rest : p' ≡ record p { queue = record p.queue { order = p'.queue.order }; rand = p'.rand }
    pub below :
        (o : ℕ)
        → (p.queue.random ≡ false) ⊎ (o < shuffle_start g p)
        → p'.queue.order o ≡ p.queue.order o

  shuffle_last-Mixed : (p : Playlist g.State) → IsValid p.queue → Mixed p (shuffle_last g p)
  unfolding shuffle_last
  shuffle_last-Mixed p v =
      elim (Bool-cases (p.queue.random && ltb (shuffle_start g p) p.queue.length)) [
        | inr f ↦
            let e : shuffle_last g p ≡ p = rw f refl in
            subst (Mixed p) (sym e) (record { valid = v; rest = refl; below = λ o h. refl })
        | inl t ↦
            let start = shuffle_start g p in
            let lt : start < p.queue.length = ground arith in
            let only =
              shuffle_order_last-OnlyOrder g p.queue p.rand start p.queue.length v (ground arith) lt
                (omega arith) in
            let (q, s) = shuffle_order_last g p.queue p.rand start p.queue.length in
            let e : shuffle_last g p ≡ record p { queue = q; rand = s } = rw t refl in
            subst (Mixed p) (sym e) (record {
              valid = only.valid;
              rest = ap (λ (t' : Queue). record p { queue = t'; rand = s }) only.rest;
              below = λ o h.
                  shuffle_order_last-below p.queue p.rand start p.queue.length o lt
                    (elim h [ inl r ↦ absurd (ground (arith, t, r)) | inr l ↦ l ]);
            })
      ]

  -- What adding a song leaves: a playlist in order with the song at the end of the queue under the new
  -- id, and the other songs in their places; and outside random mode, or with `current` in front of the
  -- songs that are shuffled, the same current song.
  pub record Added (p : Playlist g.State) (song : Song) (id : ℕ) (p' : Playlist g.State)
      : Type 0 where
    pub ok : IsOk p'
    pub longer : p'.queue.length ≡ p.queue.length + 1
    pub at_end : get p'.queue p.queue.length ≡ song
    pub id_at : (p'.queue.items p.queue.length).id ≡ id
    pub found : to_position p'.queue id ≡ some p.queue.length
    pub was_free : (i : ℕ) → i < p.queue.length → (p.queue.items i).id ≢ id
    pub song_at : (i : ℕ) → i < p.queue.length → get p'.queue i ≡ get p.queue i
    pub current_song :
        (c : ℕ)
        → p.current ≡ some c
        → (p.queue.random ≡ false) ⊎ (c < shuffle_start g p)
        → (o : ℕ) × (p'.current ≡ some o) × (p'.queue.order o ≡ p.queue.order c)

  Mixed-IsReady :
      (p p' : Playlist g.State) (prev : Option Song) → Mixed p p' → IsReady p prev → IsReady p' prev
  Mixed-IsReady p p' prev m ready = record {
    valid = m.valid;
    current_lt = λ c e. ground (
      arith,
      m.rest,
      ready.current_lt c (sym (ap (λ (t : Playlist g.State). t.current) m.rest) ∙ e),
    );
    has_current = λ pl. ground (arith, m.rest, ready.has_current);
    agree = λ pl. ground (arith, m.rest, ready.agree);
  }

  get-Mixed : (p p' : Playlist g.State) (i : ℕ) → Mixed p p' → get p'.queue i ≡ get p.queue i
  unfolding get
  get-Mixed p p' i m = ap (λ (t : Playlist g.State). get t.queue i) m.rest

  get-kept :
      (q r : Queue) (song : Song) (id i : ℕ)
      → Appended q song id r
      → i < q.length
      → get r i ≡ get q i
  unfolding get
  get-kept q r song id i a l = ground (arith, a.kept i l)

  module _ {p p2 p3 p' : Playlist g.State} {song : Song} {id : ℕ} {r : Queue}
      (a : Appended p.queue song id r) (m : Mixed (record p { queue = r }) p2)
      (rest : p3 ≡ record p2 { queue = p3.queue; events = p3.events })
      (ver : Versioned p2.queue p3.queue) (u : Updated g p3 p') where
    same_song_at : (i : ℕ) → get p'.queue i ≡ get r i
    same_song_at i =
        update-song_at g p3 p' i u ∙ ver.song_at i ∙ get-Mixed (record p { queue = r }) p2 i m

    below_same :
        (c : ℕ) → (p.queue.random ≡ false) ⊎ (c < shuffle_start g p) → p2.queue.order c ≡ r.order c
    unfolding shuffle_start
    below_same c (inl e) = m.below c (inl (a.random_same ∙ e))
    below_same c (inr l) = m.below c (inr l)

    found_at_end : to_position p'.queue id ≡ some p.queue.length
    unfolding to_position
    found_at_end =
        ap (λ (t : Playlist g.State). to_position t.queue id) u.same_rest
        ∙ ap (λ (t : Queue). to_position t id) ver.rest
        ∙ ap (λ (t : Playlist g.State). to_position t.queue id) m.rest
        ∙ a.found

    appended-Added : IsOk p → Added p song id p'
    unfolding to_position
    appended-Added ok = record {
      ok = u.ok;
      longer = ground (arith, u.same_rest, ver.rest, m.rest, a.longer);
      at_end = same_song_at p.queue.length ∙ a.at_end;
      id_at = u.ok.valid.id_of id p.queue.length (ground (arith, found_at_end));
      found = found_at_end;
      was_free = a.was_free;
      song_at = λ i l. same_song_at i ∙ get-kept p.queue r song id i a l;
      current_song = λ c e h.
          let at : p3.current ≡ some c =
            ap (λ (t : Playlist g.State). t.current) rest
            ∙ ap (λ (t : Playlist g.State). t.current) m.rest
            ∙ e in
          let (o, found, eq) = u.current_song c at in
          (
            o,
            found,
            eq
                ∙ ap (λ (t : Queue). t.order c) ver.rest
                ∙ below_same c h
                ∙ a.order_kept c (ok.current_lt c e),
          );
    }

  -- On a playlist in order, `playlist_append_song` answers with "too large", and changes nothing, if the
  -- queue is full; and else it returns success and an id that no song has, and leaves a playlist in order
  -- with the song at the end of the queue under that id, by which it is found, and the other songs in their places. Outside random mode, or
  -- with `current` in front of the songs that are shuffled, the current song is the same.
  pub append_song-Added :
      (p : Playlist g.State) (song : Song)
      → IsOk p
      → ((p.queue.max_length ≡ p.queue.length) × (append_song g p song ≡ some (too_large, none, p)))
        ⊎ ((id : ℕ) × (p' : Playlist g.State) × (append_song g p song ≡ some (success, some id, p'))
            × Added p song id p')
  unfolding append_song is_full
  append_song-Added p song ok = elim (Bool-cases (is_full p.queue)) [
    | inl full ↦ inl (ground (arith, ok.valid.fits), ground arith)
    | inr room ↦
        let (id, r, appended, a) = append-Appended song ok.valid (ground (arith, ok.valid.fits)) in
        let before = get_queued_song-IsReady g p ok in
        let prev = get_queued_song g p in
        let p1 : Playlist g.State = record p { queue = r } in
        let ready1 : IsReady p1 prev = record {
          valid = a.valid;
          current_lt = λ c e. ground (arith, a.longer, ok.current_lt c e);
          has_current = ok.has_current;
          agree = before.agree;
        } in
        let p2 = shuffle_last g p1 in
        let m = shuffle_last-Mixed p1 a.valid in
        let (ready, rest, ver) =
          increment_version-IsReady g p2 prev (Mixed-IsReady p1 p2 prev m ready1) in
        let (p', updated, u) = update_queued_song-Updated g (increment_version g p2) prev ready in
        inr (id, p', simp room (rw appended (rw updated refl)), appended-Added a m rest ver u ok)
  ]
