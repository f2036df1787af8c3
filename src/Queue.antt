-- ===== src/Queue.antt =====
-- src/queue.c, src/queue.h and the part of src/song.h that they use: the play queue.
-- `id_to_position` holds `none` for -1. `cur` is the static variable of `queue_generate_id`.
-- `freed` lists the songs handed to `song_free`. Positions are addressed below `length`; the sizes
-- of the arrays are in `Queue.Inv.IsValid`.
pub mod Append
pub mod Delete
pub mod Edit
pub mod Find
pub mod Gap
pub mod Ids
pub mod Inv
pub mod Move
pub mod Next
pub mod Opened
pub mod Place
pub mod Random
pub mod Range
pub mod Relocate
pub mod Reset
pub mod Shift
pub mod Shuffle
pub mod Swap
pub mod Version
use mpd.Base.{
  ℕ, zero, suc, ◌+◌, ◌-◌, ◌*◌, ◌^◌, Bool, not, ◌&&◌, ◌||◌, Option, none, some, List, ltb, leb, ◌==◌,
  if◌then◌else◌, Array, update, for_up, add_uint,
}

-- `struct song`: its handle, and whether `parent` is set.
pub record Song : Type 0 where
  pub handle : ℕ
  pub has_parent : Bool

unfoldable pub song_in_database : Song → Bool
song_in_database s = s.has_parent

pub record Item : Type 0 where
  pub song : Song
  pub id : ℕ
  pub version : ℕ

pub record Queue : Type 0 where
  pub max_length : ℕ
  pub length : ℕ
  pub version : ℕ
  pub items : Array Item
  pub order : Array ℕ
  pub id_to_position : Array (Option ℕ)
  pub repeat_mode : Bool
  pub single : Bool
  pub consume : Bool
  pub random : Bool
  pub cur : ℕ
  pub freed : List Song

-- `QUEUE_HASH_MULT`
abbrev pub hash_mult : ℕ
hash_mult = 4

abbrev pub ids : Queue → ℕ
ids q = q.max_length * hash_mult

unfoldable pub is_empty : Queue → Bool
is_empty q = q.length == 0

unfoldable pub is_full : Queue → Bool
is_full q = leb q.max_length q.length

unfoldable pub valid_position : Queue → ℕ → Bool
valid_position q position = ltb position q.length

unfoldable pub valid_order : Queue → ℕ → Bool
valid_order q order = ltb order q.length

unfoldable pub to_position : Queue → ℕ → Option ℕ
to_position q id = if leb (ids q) id then none else q.id_to_position id

unfoldable pub position_to_id : Queue → ℕ → ℕ
position_to_id q position = (q.items position).id

unfoldable pub order_to_position : Queue → ℕ → ℕ
order_to_position q order = q.order order

-- The scan has no bound but an assertion: here `none` stands for leaving the array.
unfoldable pub scan_order : Queue → ℕ → ℕ → ℕ → Option ℕ
scan_order q position zero i = none
scan_order q position (suc left) i =
    let rest = scan_order q position left (i + 1) in if q.order i == position then some i else rest

unfoldable pub position_to_order : Queue → ℕ → Option ℕ
unfolding scan_order
position_to_order q position = scan_order q position q.length 0

unfoldable pub get : Queue → ℕ → Song
get q position = (q.items position).song

unfoldable pub get_order : Queue → ℕ → Song
unfolding get order_to_position
get_order q order = get q (order_to_position q order)

unfoldable pub song_newer : Queue → ℕ → ℕ → Bool
song_newer q position version =
    ltb q.version version
    || (leb version (q.items position).version || ((q.items position).version == 0))

-- The number of the next song, `none` (-1) at the end.
unfoldable pub next_order : Queue → ℕ → Option ℕ
next_order q order =
    if q.single && (q.repeat_mode && not q.consume)
    then some order
    else if ltb (order + 1) q.length
    then some (order + 1)
    else if q.repeat_mode && (ltb 0 order || not q.consume)
    then some 0
    else none

-- The version number

abbrev pub version_max : ℕ
version_max = 2 ^ 31 - 1

abbrev pub set_item_version : ℕ → ℕ → Queue → Queue
set_item_version v i q = record q { items = update q.items i (record (q.items i) { version = v }) }

unfoldable pub increment_version : Queue → Queue
increment_version q =
    let q' : Queue = record q { version = add_uint q.version 1 } in
    if leb version_max q'.version
    then record (for_up q'.length 0 (set_item_version 0) q') { version = 1 }
    else q'

unfoldable pub modify : Queue → ℕ → Queue
unfolding increment_version
modify q order = increment_version (set_item_version q.version (q.order order) q)

unfoldable pub modify_all : Queue → Queue
unfolding increment_version
modify_all q = increment_version (for_up q.length 0 (set_item_version q.version) q)
