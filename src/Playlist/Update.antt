-- ===== src/Playlist/Update.antt =====
-- src/playlist.c: `playlist_update_queued_song` and what it calls.
use mpd.Base.{
  ℕ, ◌<◌, ◌≡◌, refl, sym, ap, true, not, ◌&&◌, Option, none, some, if◌then◌else◌, arith, Bool-cases,
  Option-cases, inl, inr,
}
use mathlib.Core.Path.{subst}
use mpd.Queue.{Song}
use mpd.Queue.Inv.{IsValid}
use mpd.Queue.Next.{next_order-lt}
use mpd.Queue.Random.{GRand}
use mpd.Playlist.{
  Playlist, ◌>>=◌, is_some, is_zero, shuffle_keeping_current, order_to_queue, requeue,
  update_queued_song, queue_song_order, get_queued_song,
}
use mpd.Playlist.Inv.{IsOk, IsReady}
use mpd.Playlist.Reshuffle.{shuffle_keeping_current-Reshuffled}

module _ (g : GRand) where
  -- What `playlist_update_queued_song` leaves: a playlist in order, with the modes and the
  -- songs as they were; the same song as current song; and, while playing, as `queued` the order number
  -- that `queue_next_order` gave before.
  pub record Updated (p p' : Playlist g.State) : Type 0 where
    pub ok : IsOk p'
    pub same_rest : p' ≡ record p {
      queue = record p.queue { order = p'.queue.order };
      rand = p'.rand;
      current = p'.current;
      queued = p'.queued;
      calls = p'.calls;
    }
    pub current_song :
        (c : ℕ)
        → p.current ≡ some c
        → (o : ℕ) × (p'.current ≡ some o) × (p'.queue.order o ≡ p.queue.order c)
    pub queued_next : p.playing ≡ true → p'.queued ≡ order_to_queue g p

  order_to_queue-lt :
      (p : Playlist g.State) (c n : ℕ)
      → p.current ≡ some c
      → c < p.queue.length
      → order_to_queue g p ≡ some n
      → n < p.queue.length
  unfolding order_to_queue
  order_to_queue-lt p c n e lt h = next_order-lt p.queue c n lt (rw (e, order_to_queue) at h)

  -- The last part changes only `queued` and `calls`.
  requeue_lem :
      (p : Playlist g.State) (next : Option ℕ) (prev : Option Song)
      → (requeue g p next prev ≡ record p {
        queued = (requeue g p next prev).queued;
        calls = (requeue g p next prev).calls;
      })
        × (is_some prev ≡ is_some p.queued → (requeue g p next prev).queued ≡ next)
  unfolding requeue queue_song_order
  requeue_lem p none none = (ground arith, ground arith)
  requeue_lem p none (some s) = (ground arith, ground arith)
  requeue_lem p (some o) none = (ground arith, ground arith)
  requeue_lem p (some o) (some s) = (ground arith, ground arith)

  -- the playlist after the shuffling, if any
  record Prepared (p p' : Playlist g.State) : Type 0 where
    rest : p' ≡ record p {
      queue = record p.queue { order = p'.queue.order };
      rand = p'.rand;
      current = p'.current;
    }
    valid : IsValid p'.queue
    o : ℕ
    current : p'.current ≡ some o
    o_lt : o < p.queue.length
    same : (c : ℕ) → p.current ≡ some c → p'.queue.order o ≡ p.queue.order c

  prepare : Playlist g.State → Option (Playlist g.State)
  prepare p =
      if is_zero (order_to_queue g p) && (p.queue.random && not p.queue.single)
      then shuffle_keeping_current g p
      else some p

  prepare-Prepared :
      (p : Playlist g.State) (c : ℕ) {prev : Option Song}
      → IsReady p prev
      → p.current ≡ some c
      → (p' : Playlist g.State) × (prepare p ≡ some p') × Prepared p p'
  unfolding prepare
  prepare-Prepared p c ok e =
      elim (Bool-cases (is_zero (order_to_queue g p) && (p.queue.random && not p.queue.single))) [
        | inl t ↦
            let (p', found, r) =
              shuffle_keeping_current-Reshuffled g p c ok.valid (ground arith) e
                (ok.current_lt c e) in
            (
              p',
              rw t found,
              record {
                rest = r.rest;
                valid = r.valid;
                o = r.o;
                current = r.current;
                o_lt = r.o_lt;
                same = λ d e'. ground (arith, r.same);
              },
            )
        | inr f ↦ (
          p,
          rw f,
          record {
            rest = refl;
            valid = ok.valid;
            o = c;
            current = e;
            o_lt = ok.current_lt c e;
            same = λ d e'. ground arith;
          },
        )
      ]

  requeue-Updated :
      (p p1 : Playlist g.State) (c : ℕ) (prev : Option Song)
      → IsReady p prev
      → p.current ≡ some c
      → Prepared p p1
      → Updated p (requeue g p1 (order_to_queue g p) prev)
  requeue-Updated p p1 c prev ok e pre =
      let m = requeue_lem p1 (order_to_queue g p) prev in
      let p' = requeue g p1 (order_to_queue g p) prev in
      let agree : p'.playing ≡ true → is_some prev ≡ is_some p1.queued =
        λ pl. ground (arith, m.0, pre.rest, ok.agree) in
      record {
        ok = record {
          valid = subst IsValid (sym (ap (λ (t : Playlist g.State). t.queue) m.0)) pre.valid;
          current_lt = λ d e'. ground (arith, m.0, pre.rest, pre.current, pre.o_lt);
          queued_lt = λ pl o e'.
              ground (
                arith,
                m.0,
                m.1,
                pre.rest,
                agree pl,
                order_to_queue-lt p c o e (ok.current_lt c e),
              );
          has_current = λ pl. ground (arith, m.0, pre.current);
        };
        same_rest = ground (arith, m.0, pre.rest);
        current_song =
            λ d e'. (pre.o, ground (arith, m.0, pre.current), ground (arith, m.0, pre.same d e'));
        queued_next = λ pl. ground (arith, m.1, pre.rest, ok.agree pl);
      }

  -- On a playlist that is ready, with a previously queued song given exactly if one is queued,
  -- `playlist_update_queued_song` returns, and leaves a playlist in order: modes and songs are as they
  -- were, the current song is the same song, and while playing `queued` is what followed the current
  -- song, or the first song, before a new shuffle.
  pub update_queued_song-Updated :
      (p : Playlist g.State) (prev : Option Song)
      → IsReady p prev
      → (p' : Playlist g.State) × (update_queued_song g p prev ≡ some p') × Updated p p'
  unfolding update_queued_song prepare
  update_queued_song-Updated p prev ok = elim (Bool-cases p.playing) [
    | inr f ↦ (
      p,
      simp f,
      record {
        ok = record {
          valid = ok.valid;
          current_lt = ok.current_lt;
          queued_lt = λ pl. absurd (ground arith);
          has_current = ok.has_current;
        };
        same_rest = refl;
        current_song = λ c e. (c, e, refl);
        queued_next = λ pl. absurd (ground arith);
      },
    )
    | inl t ↦ elim (Option-cases p.current) [
      | inl e ↦ absurd (ground (arith, ok.has_current t))
      | inr (c, e) ↦
          let (p1, found, pre) = prepare-Prepared p c ok e in
          (
            requeue g p1 (order_to_queue g p) prev,
            simp t (
                ap
                  (λ (r : Option (Playlist g.State)).
                    r >>= λ p'. some (requeue g p' (order_to_queue g p) prev))
                  found),
            requeue-Updated p p1 c prev ok e pre,
          )
    ]
  ]

-- The song that counts as queued agrees with `queued`.
pub get_queued_song-IsReady :
    (g : GRand) (p : Playlist g.State) → IsOk p → IsReady p (get_queued_song g p)
unfolding get_queued_song
get_queued_song-IsReady g p ok = record {
  valid = ok.valid;
  current_lt = ok.current_lt;
  has_current = ok.has_current;
  agree = λ pl. ground arith;
}
