-- ===== src/Tests/Queues.antt =====
-- src/queue.c on a queue of three songs: the theorems at that queue.
use mpd.Base.{
  ℕ, ◌+◌, ◌-◌, ◌<◌, ◌≡◌, ◌≢◌, ◌↔◌, refl, Option, none, some, [], arith, ◌==◌, if◌then◌else◌, true,
  false,
}
use mpd.Queue.{
  version_max, Queue, Song, get, next_order, position_to_order, modify, modify_all, song_newer,
}
use mpd.Queue.Edit.{generate_id, move, move_range, moved, moved_range, delete}
use mpd.Queue.Inv.{IsValid}
use mpd.Queue.Ids.{IsFree, generate_id-IsFree}
use mpd.Queue.Delete.{Deleted, delete-Deleted}
use mpd.Queue.Relocate.{Bijects, Moved}
use mpd.Queue.Move.{move_range-Moved, move-Moved}
use mpd.Queue.Random.{GRand, shuffle_order, shuffle_range}
use mpd.Queue.Shuffle.{OnlyOrder, Shuffled, shuffle_order-OnlyOrder, shuffle_range-Shuffled}
use mpd.Queue.Version.{IsTold, modify_lem, modify_all_lem}
use mpd.Queue.Next.{next_order-none}

-- a generator that draws the last number of the range
abbrev pub drawing : GRand
drawing = record {
  State = ℕ;
  int_range = λ s begin end. (end - 1, s + 1);
  in_range = λ s begin end lt. (omega arith, omega arith);
}

abbrev pub song : ℕ → Song
song n = record { handle = n; has_parent = true }

-- three songs with the ids 5, 6 and 7, in random mode played as 1, 2, 0
abbrev pub ids_of : ℕ → Option ℕ
ids_of i = if i == 5 then some 0 else if i == 6 then some 1 else if i == 7 then some 2 else none

abbrev pub three : Queue
three = record {
  max_length = 4;
  length = 3;
  version = 9;
  items = λ p. record { song = song (10 + p); id = 5 + p; version = 3 };
  order = λ o. if o == 0 then 1 else if o == 1 then 2 else if o == 2 then 0 else o;
  id_to_position = ids_of;
  repeat_mode = false;
  single = false;
  consume = false;
  random = true;
  cur = 7;
  freed = [];
}

-- the same, with "repeat"
abbrev pub round : Queue
round = record three { repeat_mode = true }

pub three-IsValid : IsValid three
three-IsValid = record {
  fits = omega arith;
  small = omega arith;
  version_lt = omega arith;
  version_pos = omega arith;
  has_ids = record {
    in_range = λ p lt. omega arith;
    id_at = λ p lt. ground arith;
    position_lt = λ i p e. ground arith;
    id_of = λ i p e. ground arith;
  };
  has_order = record {
    permutes = record { below = λ o lt. ground arith; injective = λ i j li lj e. ground arith };
    in_place = λ m o lt. absurd (ground arith);
  };
}

generate_id-IsFree_example : (j : ℕ) × (generate_id three ≡ some j) × IsFree three j
generate_id-IsFree_example = generate_id-IsFree three-IsValid (omega arith)

move_range-Moved_example :
    Bijects 3 (moved_range 0 2 1) (moved_range 1 (1 + (2 - 0)) 0)
    × Moved (moved_range 0 2 1) (moved_range 1 (1 + (2 - 0)) 0) three (move_range three 0 2 1)
    × IsValid (move_range three 0 2 1)
move_range-Moved_example =
    move_range-Moved three-IsValid 0 2 1 (omega arith) (omega arith) (omega arith)

move-Moved_example :
    Bijects 3 (moved 2 0) (moved 0 2)
    × Moved (moved 2 0) (moved 0 2) three (move three 2 0)
    × IsValid (move three 2 0)
move-Moved_example = move-Moved three-IsValid 2 0 (omega arith) (omega arith)

delete-Deleted_example :
    (order : ℕ) × (q' : Queue) × (position_to_order three 1 ≡ some order)
    × (delete three 1 ≡ some q')
    × Deleted three 1 order q'
delete-Deleted_example = delete-Deleted three-IsValid 1 (omega arith)

shuffle_order-OnlyOrder_example : OnlyOrder three (shuffle_order drawing three 0).0
shuffle_order-OnlyOrder_example = shuffle_order-OnlyOrder drawing three 0 three-IsValid refl

shuffle_range-Shuffled_example : Shuffled 1 3 three (shuffle_range drawing three 0 1 3).0
shuffle_range-Shuffled_example =
    shuffle_range-Shuffled drawing three 0 1 3 three-IsValid (omega arith) (omega arith)

modify_all_lem_example :
    IsValid (modify_all three)
    × ((p : ℕ) → get (modify_all three) p ≡ get three p)
    × ((p : ℕ) → p < 3 → IsTold three (modify_all three) p)
modify_all_lem_example = modify_all_lem three-IsValid

next_order-none_example :
    (next_order round 2 ≡ none) ↔ ((round.length ≡ 1) × (round.consume ≡ true))
next_order-none_example = next_order-none round 2 (omega arith) refl

modify_lem_example :
    IsValid (modify three 0)
    × ((p : ℕ) → get (modify three 0) p ≡ get three p)
    × IsTold three (modify three 0) 1
    × (9 + 1 < version_max
        → (p : ℕ) → p < 3
        → p ≢ 1
        → 0 < 3
        → 3 < 9
        → song_newer (modify three 0) p 9 ≡ false)
modify_lem_example = modify_lem three-IsValid 0 (omega arith)
