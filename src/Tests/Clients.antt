-- ===== src/Tests/Clients.antt =====
-- src/client_process.c with commands that count themselves: the theorems at a short command list.
use mpd.Base.{ℕ, suc, ◌+◌, ◌≡◌, refl, true, false, some, List, [], ◌∷◌, ◌++◌, arith}
use mpd.Tokenizer.{Bytes}
use mpd.Client.{
  bytes, strlen, Client, Process, Return, ok, close, list_begin, list_end, process_line, same,
}
use mpd.Client.Feed.{total_size, feed}
use mpd.Client.Lists.{with_list, Ran, Over, list_in_order}
use mpd.Client.Sizes.{sizes_accumulate}

abbrev counting : Process ℕ
counting c num line = (ok, record c { world = suc c.world })

abbrev listing : Client ℕ
listing = record {
  world = 0;
  expired = false;
  idle_waiting = false;
  mode = some true;
  cmd_list = [];
  cmd_list_size = 0;
  output = [];
  max_command_list_size = 15;
}

abbrev two_lines : List Bytes
two_lines = bytes "next" ∷ (bytes "ping" ∷ [])

list_in_order_example :
    (ret : Return) × (c' : Client ℕ) × Ran counting true 0 two_lines
      (with_list listing two_lines)
      ret
      c'
    × Over ret c'
        (feed counting listing (two_lines ++ (list_end ∷ []))).0
        (feed counting listing (two_lines ++ (list_end ∷ []))).1
unfolding same strlen
list_in_order_example =
    list_in_order counting two_lines listing true refl refl refl ((refl, refl), ((refl, refl), tt))
      (omega arith) (omega arith)

abbrev after : Client ℕ
after = (feed counting listing (two_lines ++ (list_end ∷ []))).1

abbrev one_line : List Bytes
one_line = bytes "stop" ∷ []

sizes_accumulate_example :
    (after.cmd_list_size ≡ 0 + total_size two_lines)
    × ((feed counting after (list_begin ∷ one_line)).0 ≡ ok)
    × ((feed counting after (list_begin ∷ (one_line ++ (bytes "next" ∷ [])))).0 ≡ close)
unfolding same strlen feed process_line
sizes_accumulate_example =
    sizes_accumulate counting two_lines one_line (bytes "next") listing after true ok
      (λ c n l. (refl, refl)) refl refl refl ((refl, refl), ((refl, refl), tt)) ((refl, refl), tt)
      (refl, refl) (omega arith) (omega arith) (omega arith) refl (λ h. cc h) refl
