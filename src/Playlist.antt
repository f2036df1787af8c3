-- ===== src/Playlist.antt =====
-- src/playlist.c: the playlist, which joins the queue to the player.
-- Of the player (src/player_control.c, another thread) the playlist sees a snapshot, `Player`, an
-- argument of the functions that read it; what it asks of the player is recorded in `calls`, and
-- `idle_add` in `events`, the last entry first. `none` of an order number is -1. A function
-- returns `none` where the C code would go on with an order number or a position of -1, in front of an
-- array or against an assertion, or would not return. Other reads outside an array are not detected.
pub mod Answering
pub mod Append
pub mod Control
pub mod Correct
pub mod Delete
pub mod DeleteRange
pub mod Remove
pub mod Edit
pub mod Move
pub mod Moved
pub mod Moves
pub mod Inv
pub mod Modes
pub mod Next
pub mod Keeping
pub mod Playing
pub mod Random
pub mod Reached
pub mod Requests
pub mod Reshuffle
pub mod Shuffle
pub mod Starting
pub mod Shuffling
pub mod Swap
pub mod Syncing
pub mod Update
use mpd.Base.{
  ◌≡◌, ap, ℕ, suc, ◌+◌, Bool, true, false, not, ◌&&◌, ◌||◌, Option, none, some, List, [], ◌∷◌, ltb,
  leb, ◌==◌, if◌then◌else◌,
}
use mpd.Queue.{
  Queue, Song, get_order, order_to_position, position_to_order, next_order, modify, modify_all,
  valid_order,
}
use mpd.Queue.Edit.{restore_order, swap_order}
use mpd.Queue.Random.{GRand, shuffle_order}

-- What the playlist asks of the player.
pub data Call : Type 0 where
  play enqueue song_deleted : Song → Call
  cancel stop clear_error : Call
  set_pause : Bool → Call
  seek : Song → ℕ → Call

-- IDLE_PLAYLIST, IDLE_PLAYER and IDLE_OPTIONS
pub data Event : Type 0 where
  playlist player options : Event

-- `enum player_state`
pub data PlayerState : Type 0 where
  stopped paused playing_state : PlayerState

-- A snapshot of `pc`: its state, whether there is an error and whether that is an audio or a system
-- error, and whether a next song is set.
pub record Player : Type 0 where
  pub state : PlayerState
  pub has_error : Bool
  pub error_is_fatal : Bool
  pub has_next_song : Bool

abbrev pub is_stopped : PlayerState → Bool
is_stopped stopped = true
is_stopped _ = false

abbrev pub is_paused : PlayerState → Bool
is_paused paused = true
is_paused _ = false

infixl 5 ◌>>=◌
abbrev pub ◌>>=◌ {ℓ κ} : {A : Type ℓ} {B : Type κ} → Option A → (A → Option B) → Option B
none >>= f = none
some a >>= f = f a

pub >>=-some {ℓ κ} :
    {A : Type ℓ} {B : Type κ} {m : Option A} {a : A} (f : A → Option B)
    → m ≡ some a
    → (m >>= f) ≡ f a
>>=-some f e = ap (λ o. o >>= f) e

abbrev pub is_some {ℓ} : {A : Type ℓ} → Option A → Bool
is_some none = false
is_some (some a) = true

-- Two pointers to songs, `none` for NULL.
abbrev pub same_song : Option Song → Option Song → Bool
same_song none none = true
same_song none (some b) = false
same_song (some a) none = false
same_song (some a) (some b) = a.handle == b.handle

abbrev pub is_zero : Option ℕ → Bool
is_zero none = false
is_zero (some n) = n == 0

-- `rand` is `queue.rand`, the state of the generator.
pub record Playlist {ℓ} (Rand : Type ℓ) : Type ℓ where
  pub queue : Queue
  pub rand : Rand
  pub playing : Bool
  pub stop_on_error : Bool
  pub error_count : ℕ
  pub current : Option ℕ
  pub queued : Option ℕ
  pub calls : List Call
  pub events : List Event

abbrev pub tell {ℓ} : {R : Type ℓ} → Call → Playlist R → Playlist R
tell c p = record p { calls = c ∷ p.calls }

abbrev pub emit {ℓ} : {R : Type ℓ} → Event → Playlist R → Playlist R
emit e p = record p { events = e ∷ p.events }

abbrev pub same_flag : Bool → Bool → Bool
same_flag true b = b
same_flag false b = not b

module _ (g : GRand) where
  -- `queue_shuffle_order (&playlist->queue)`
  unfoldable pub shuffle_queue : Playlist g.State → Playlist g.State
  shuffle_queue p = let (q, s) = shuffle_order g p.queue p.rand in record p { queue = q; rand = s }

  -- Shuffling so that `current` still names the current song. Before it is looked up, `current` is
  -- used as an index.
  unfoldable pub shuffle_keeping_current : Playlist g.State → Option (Playlist g.State)
  shuffle_keeping_current p = do
    c ← p.current
    let position = order_to_position p.queue c
    let p' = shuffle_queue p
    o ← position_to_order p'.queue position
    some (record p' { current = some o })

  -- `playlist_queue_song_order`
  unfoldable pub queue_song_order : Playlist g.State → ℕ → Playlist g.State
  queue_song_order p order =
      tell (enqueue (get_order p.queue order)) (record p { queued = some order })

  -- `playlist_get_queued_song`
  unfoldable pub get_queued_song : Playlist g.State → Option Song
  get_queued_song p =
      if not p.playing
      then none
      else elim p.queued [ none ↦ none | some o ↦ some (get_order p.queue o) ]

  -- the `next_order` of `playlist_update_queued_song`
  unfoldable pub order_to_queue : Playlist g.State → Option ℕ
  order_to_queue p = elim p.current [ some c ↦ next_order p.queue c | none ↦ some 0 ]

  -- its last part, behind the shuffling
  unfoldable pub requeue : Playlist g.State → Option ℕ → Option Song → Playlist g.State
  requeue p next prev =
      let next_song : Option Song = elim next [
        | none ↦ none
        | some o ↦ some (get_order p.queue o)
      ] in
      let p' : Playlist g.State =
        if is_some prev && not (same_song next_song prev)
        then tell cancel (record p { queued = none })
        else p in
      elim next [
        | none ↦ p'
        | some o ↦
            if not (same_song next_song prev)
            then queue_song_order p' o
            else record p' { queued = some o }
      ]

  -- `playlist_update_queued_song`
  unfoldable pub update_queued_song : Playlist g.State → Option Song → Option (Playlist g.State)
  update_queued_song p prev =
      if not p.playing
      then some p
      else let next = order_to_queue p in
        (if is_zero next && (p.queue.random && not p.queue.single)
          then shuffle_keeping_current p
          else some p)
        >>= λ p'. some (requeue p' next prev)

  -- `playlist_play_order`
  unfoldable pub play_order : Playlist g.State → ℕ → Playlist g.State
  play_order p order =
      let p' : Playlist g.State = record p { playing = true; queued = none } in
      record (tell (play (get_order p'.queue order)) p') { current = some order }

  -- `playlist_tag_changed`
  unfoldable pub tag_changed : Playlist g.State → Option (Playlist g.State)
  tag_changed p =
      if not p.playing
      then some p
      else do c ← p.current; some (emit playlist (record p { queue = modify p.queue c }))

  -- `playlist_increment_version_all`
  unfoldable pub increment_version_all : Playlist g.State → Playlist g.State
  increment_version_all p = emit playlist (record p { queue = modify_all p.queue })

  -- `playlist_set_repeat`
  unfoldable pub set_repeat : Playlist g.State → Bool → Option (Playlist g.State)
  set_repeat p status =
      if same_flag status p.queue.repeat_mode
      then some p
      else let p' : Playlist g.State = record p {
        queue = record p.queue { repeat_mode = status };
      } in
        update_queued_song p' (get_queued_song p') >>= λ r. some (emit options r)

  -- `playlist_set_single`
  unfoldable pub set_single : Playlist g.State → Bool → Option (Playlist g.State)
  set_single p status =
      if same_flag status p.queue.single
      then some p
      else let p' : Playlist g.State = record p { queue = record p.queue { single = status } } in
        update_queued_song p' (get_queued_song p') >>= λ r. some (emit options r)

  -- `playlist_set_consume`
  unfoldable pub set_consume : Playlist g.State → Bool → Playlist g.State
  set_consume p status =
      if same_flag status p.queue.consume
      then p
      else emit options (record p { queue = record p.queue { consume = status } })

  -- `playlist_order`
  unfoldable pub order_playlist : Playlist g.State → Playlist g.State
  order_playlist p =
      let p' : Playlist g.State = elim p.current [
        | none ↦ p
        | some c ↦ record p { current = some (order_to_position p.queue c) }
      ] in
      record p' { queue = restore_order p'.queue }

  -- the branch of `playlist_set_random` that turns random mode on, `p.queue.random` being set
  unfoldable pub start_random : Playlist g.State → Option (Playlist g.State)
  start_random p =
      let position : Option ℕ =
        if p.playing
        then elim p.current [ none ↦ none | some c ↦ some (order_to_position p.queue c) ]
        else none in
      let p' = shuffle_queue p in
      elim position [
        | none ↦ some (record p' { current = none })
        | some pos ↦ position_to_order p'.queue pos >>= λ o.
            some (record p' { queue = swap_order p'.queue 0 o; current = some 0 })
      ]

  -- `playlist_set_random`
  unfoldable pub set_random : Playlist g.State → Bool → Option (Playlist g.State)
  set_random p status =
      if same_flag status p.queue.random
      then some p
      else let queued = get_queued_song p in
        let p' : Playlist g.State = record p { queue = record p.queue { random = status } } in
        (if status then start_random p' else some (order_playlist p')) >>= λ r.
        update_queued_song r queued >>= λ r'. some (emit options r')

  -- `playlist_get_next_song`
  unfoldable pub get_next_song : Playlist g.State → Option ℕ
  get_next_song p = elim p.current [
    | none ↦ none
    | some c ↦
        if p.queue.single && p.queue.repeat_mode
        then some (order_to_position p.queue c)
        else if ltb (c + 1) p.queue.length
        then some (order_to_position p.queue (c + 1))
        else if p.queue.repeat_mode
        then some (order_to_position p.queue 0)
        else none
  ]
