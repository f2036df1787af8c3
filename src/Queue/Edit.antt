-- ===== src/Queue/Edit.antt =====
-- src/queue.c: the operations that add, remove and reorder songs.
use mpd.Base.{
  ℕ, zero, suc, ◌+◌, ◌-◌, ◌&&◌, Option, none, some, List, [], ◌∷◌, Array, false, ltb, leb, ◌==◌,
  if◌then◌else◌, update, for_up, for_down, add_uint, sub_uint,
}
use mpd.Queue.{Song, song_in_database, Item, Queue, ids, get, position_to_id, position_to_order}

-- `queue_generate_id`

-- one round: `cur++`, and back to 0 behind the last id
unfoldable pub next_cur : Queue → ℕ → ℕ
next_cur q cur = let c = add_uint cur 1 in if leb (ids q) c then 0 else c

-- The loop on fuel: `none` if no free id has been met.
unfoldable pub search_id : Queue → ℕ → ℕ → Option ℕ
search_id q zero cur = none
search_id q (suc fuel) cur =
    let c = next_cur q cur in
    elim (q.id_to_position c) [ none ↦ some c | some _ ↦ search_id q fuel c ]

-- As many rounds as there are ids: see `Queue.Ids`.
unfoldable pub generate_id : Queue → Option ℕ
unfolding search_id next_cur
generate_id q = search_id q (ids q) q.cur

-- `queue_append`: the new id and the new queue.
unfoldable pub append_at : Queue → Song → ℕ → Queue
append_at q song id = record q {
  items = update q.items q.length (record { song = song; id = id; version = q.version });
  order = update q.order q.length q.length;
  id_to_position = update q.id_to_position id (some q.length);
  length = q.length + 1;
  cur = id;
}

unfoldable pub append : Queue → Song → Option (ℕ × Queue)
unfolding append_at generate_id
append q song = elim (generate_id q) [ none ↦ none | some id ↦ some (id, append_at q song id) ]

-- `queue_swap`
unfoldable pub swap : Queue → ℕ → ℕ → Queue
swap q position1 position2 =
    let id1 = (q.items position1).id in
    let id2 = (q.items position2).id in
    let tmp = q.items position1 in
    let items1 = update q.items position1 (q.items position2) in
    let items2 = update items1 position2 tmp in
    let items3 = update items2 position1 (record (items2 position1) { version = q.version }) in
    let items4 = update items3 position2 (record (items3 position2) { version = q.version }) in
    record q {
      items = items4;
      id_to_position = update (update q.id_to_position id1 (some position2)) id2 (some position1);
    }

-- `queue_swap_order`
unfoldable pub swap_order : Queue → ℕ → ℕ → Queue
swap_order q order1 order2 =
    let tmp = q.order order1 in
    record q { order = update (update q.order order1 (q.order order2)) order2 tmp }

unfoldable pub move_song_to : Queue → ℕ → ℕ → Queue
move_song_to q from to =
    let from_id = (q.items from).id in
    record q {
      items = update q.items to (record (q.items from) { version = q.version });
      id_to_position = update q.id_to_position from_id (some to);
    }

-- `queue->id_to_position[item.id] = to; queue->items[to] = item; ... .version = queue->version;`
unfoldable pub put_item : Queue → Item → ℕ → Queue
put_item q item to = record q {
  id_to_position = update q.id_to_position item.id (some to);
  items = update q.items to (record item { version = q.version });
}

-- the three cases for one element of `order` in `queue_move`
unfoldable pub moved : ℕ → ℕ → ℕ → ℕ
moved from to o =
    if ltb from o && leb o to
    then o - 1
    else if ltb o from && leb to o
    then o + 1
    else if from == o
    then to
    else o

abbrev pub map_order : (ℕ → ℕ) → ℕ → Queue → Queue
map_order f i q = record q { order = update q.order i (f (q.order i)) }

-- `queue_move`
unfoldable pub move : Queue → ℕ → ℕ → Queue
unfolding put_item moved move_song_to
move q from to =
    let item = q.items from in
    let q1 = for_up (to - from) from (λ i s. move_song_to s (i + 1) i) q in
    let q2 = for_down (from - to) from (λ i s. move_song_to s (i - 1) i) q1 in
    let q3 = put_item q2 item to in
    if q3.random then for_up q3.length 0 (map_order (moved from to)) q3 else q3

-- the three cases for one element of `order` in `queue_move_range`
unfoldable pub moved_range : ℕ → ℕ → ℕ → ℕ → ℕ
moved_range start end to o =
    if leb end o && ltb o (to + end - start)
    then o - (end - start)
    else if ltb o start && leb to o
    then o + (end - start)
    else if leb start o && ltb o end
    then add_uint o (sub_uint to start)
    else o

-- `queue_move_range`: `saved` is the copied block, the array `items`.
unfoldable pub move_range : Queue → ℕ → ℕ → ℕ → Queue
unfolding put_item moved_range move_song_to
move_range q start end to =
    let saved = λ (k : ℕ). q.items (start + k) in
    let q1 = for_up (to - start) end (λ i s. move_song_to s i (start + i - end)) q in
    let q2 = for_down (start - to) (start - 1) (λ i s. move_song_to s i (i + end - start)) q1 in
    let q3 =
      for_up (end - start) start (λ i s. put_item s (saved (i - start)) (to + i - start)) q2 in
    if q3.random then for_up q3.length 0 (map_order (moved_range start end to)) q3 else q3

-- `if (!song_in_database(song)) song_free(song);`
unfoldable pub free_song : Song → List Song → List Song
unfolding song_in_database
free_song song freed = if song_in_database song then freed else song ∷ freed

-- the three loops of `queue_delete`, the length being the new one
unfoldable pub close_gap : Queue → ℕ → ℕ → Queue
unfolding move_song_to
close_gap q position order =
    let q1 = for_up (q.length - position) position (λ i s. move_song_to s (i + 1) i) q in
    let q2 =
      for_up (q1.length - order) order
        (λ i s. record s { order = update s.order i (s.order (i + 1)) }) q1 in
    for_up q2.length 0 (map_order (λ o. if ltb position o then o - 1 else o)) q2

-- `queue_delete`; `none` where the search for the order number leaves the array.
unfoldable pub delete : Queue → ℕ → Option Queue
unfolding close_gap free_song position_to_order position_to_id get
delete q position =
    let id = position_to_id q position in
    elim (position_to_order q position) [
      | none ↦ none
      | some order ↦ some (
          close_gap
            (record q {
              length = q.length - 1;
              id_to_position = update q.id_to_position id none;
              freed = free_song (get q position) q.freed;
            })
            position order)
    ]

unfoldable pub clear_item : ℕ → Queue → Queue
unfolding free_song
clear_item i q = record q {
  freed = free_song (q.items i).song q.freed;
  id_to_position = update q.id_to_position (q.items i).id none;
}

-- `queue_clear`
unfoldable pub clear : Queue → Queue
unfolding clear_item
clear q = record (for_up q.length 0 clear_item q) { length = 0 }

-- `queue_init`: the contents of the new `items` and `order` are those of the allocated memory.
unfoldable pub init : ℕ → Array Item → Array ℕ → ℕ → Queue
init max_length items order cur = record {
  max_length = max_length;
  length = 0;
  version = 1;
  items = items;
  order = order;
  id_to_position = λ _. none;
  repeat_mode = false;
  single = false;
  consume = false;
  random = false;
  cur = cur;
  freed = [];
}

-- `queue_restore_order`
unfoldable pub restore_order : Queue → Queue
restore_order q = for_up q.length 0 (λ i s. record s { order = update s.order i i }) q
