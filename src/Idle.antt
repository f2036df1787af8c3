-- ===== src/Idle.antt =====
-- src/client_idle.c, with the flags and names of src/idle.c: clients that wait for events. A set of flags is
-- a function of the bit's number; an `unsigned` has 32 bits. `output` lists the lines written, the
-- first one first; that they are flushed is not modelled, nor are the timer and the mutex.
pub mod Events
use mpd.Base.{
  ℕ, zero, suc, ◌+◌, Bool, true, false, ◌&&◌, ◌||◌, List, [], ◌∷◌, ◌++◌, ltb, if◌then◌else◌,
}
use mpd.Tokenizer.{Bytes}
use mpd.Client.{bytes}

abbrev pub Flags : Type 0
Flags = ℕ → Bool

-- `a & b`, `a | b` and 0
abbrev pub both : Flags → Flags → Flags
both a b i = a i && b i

abbrev pub either : Flags → Flags → Flags
either a b i = a i || b i

abbrev pub no_flags : Flags
no_flags i = false

-- one of the first `n` bits is set
unfoldable pub any_bit : ℕ → Flags → Bool
any_bit zero f = false
any_bit (suc n) f = f n || any_bit n f

-- `flags != 0`
abbrev pub is_set : Flags → Bool
is_set f = any_bit 32 f

abbrev pub idle_names : List Bytes
idle_names =
    bytes "database"
    ∷ bytes "stored_playlist"
    ∷ bytes "playlist"
    ∷ bytes "player"
    ∷ bytes "mixer"
    ∷ bytes "output"
    ∷ bytes "options"
    ∷ bytes "sticker"
    ∷ bytes "update"
    ∷ []

-- The lines "changed: ..." and "OK".
pub data Line : Type 0 where
  changed : Bytes → Line
  ok_line : Line

pub record Client : Type 0 where
  pub expired : Bool
  pub idle_waiting : Bool
  pub idle_flags : Flags
  pub idle_subscriptions : Flags
  pub output : List Line

-- the loop of `client_idle_notify`, from the bit `i` on
unfoldable pub announce : ℕ → List Bytes → Flags → List Line
announce i [] f = []
announce i (name ∷ names) f =
    let rest = announce (i + 1) names f in if f i then changed name ∷ rest else rest

-- `client_idle_notify`
unfoldable pub notify : Client → Client
unfolding announce
notify c = record c {
  idle_flags = no_flags;
  idle_waiting = false;
  output =
      c.output
      ++ (announce 0 idle_names (both c.idle_flags c.idle_subscriptions) ++ (ok_line ∷ []));
}

-- `client_idle_callback`
unfoldable pub callback : Flags → Client → Client
unfolding any_bit notify
callback flags c =
    if c.expired
    then c
    else let c' : Client = record c { idle_flags = either c.idle_flags flags } in
      if c'.idle_waiting && is_set (both c'.idle_flags c'.idle_subscriptions) then notify c' else c'

-- `client_manager_idle_add`, over the list of the clients
unfoldable pub manager_idle_add : Flags → List Client → List Client
unfolding callback
manager_idle_add flags [] = []
manager_idle_add flags (c ∷ clients) = callback flags c ∷ manager_idle_add flags clients

-- `client_idle_wait`: whether it notified, and the client
unfoldable pub idle_wait : Client → Flags → Bool × Client
unfolding any_bit notify
idle_wait c flags =
    let c' : Client = record c { idle_waiting = true; idle_subscriptions = flags } in
    if is_set (both c'.idle_flags c'.idle_subscriptions) then (true, notify c') else (false, c')

-- `idle_add` and `idle_get` of src/idle.c, on the variable `idle_flags` of that file
abbrev pub idle_add : Flags → Flags → Flags
idle_add idle_flags flags = either idle_flags flags

abbrev pub idle_get : Flags → Flags × Flags
idle_get idle_flags = (idle_flags, no_flags)
