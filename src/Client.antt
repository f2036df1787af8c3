-- ===== src/Client.antt =====
-- src/client_process.c, with new_cmd_list_ptr of src/client_internal.h: the lines of one client, in
-- and out of a command list. What a command does is an argument, `process`; `client_is_expired`
-- is a field. `output` lists what `client_puts` wrote, the last one first.
pub mod Feed
pub mod Lists
pub mod Sizes
use Prim.Native.Char.{code}
use Prim.Native.String.{String}
use mpd.Base.{
  ℕ, suc, ◌+◌, Bool, true, false, not, ◌&&◌, ◌||◌, Option, none, some, List, [], ◌∷◌, add_uint,
  add_size, ltb, ◌==◌, if◌then◌else◌,
}
use mpd.Tokenizer.{Bytes}

-- The bytes of a C string literal.
abbrev pub bytes : String → Bytes
bytes String.[] = []
bytes (String.◌∷◌ c s) = code c ∷ bytes s

-- `strcmp (a, b) == 0`
unfoldable pub same : Bytes → Bytes → Bool
same [] [] = true
same [] (d ∷ b) = false
same (c ∷ a) [] = false
same (c ∷ a) (d ∷ b) = (c == d) && same a b

unfoldable pub strlen : Bytes → ℕ
strlen [] = 0
strlen (c ∷ s) = suc (strlen s)

-- `enum command_return`
pub data Return : Type 0 where
  error ok kill close : Return

abbrev pub is_ok : Return → Bool
is_ok ok = true
is_ok _ = false

abbrev pub is_close : Return → Bool
is_close close = true
is_close _ = false

abbrev pub list_begin : Bytes
list_begin = bytes "command_list_begin"

abbrev pub list_ok_begin : Bytes
list_ok_begin = bytes "command_list_ok_begin"

abbrev pub list_end : Bytes
list_end = bytes "command_list_end"

-- `client_puts` of "OK\n", of "list_OK\n", or what a command wrote
pub data Reply : Type 0 where
  success list_success : Reply
  text : Bytes → Reply

-- `g_slist_reverse`
unfoldable pub reverse_onto : List Bytes → List Bytes → List Bytes
reverse_onto [] acc = acc
reverse_onto (x ∷ xs) acc = reverse_onto xs (x ∷ acc)

module _ {ℓ} (World : Type ℓ) where
  -- `mode` is `cmd_list_OK`, with `none` for -1 and the other values as a flag.
  pub record Client : Type ℓ where
    pub world : World
    pub expired : Bool
    pub idle_waiting : Bool
    pub mode : Option Bool
    pub cmd_list : List Bytes
    pub cmd_list_size : ℕ
    pub output : List Reply
    pub max_command_list_size : ℕ

  -- `command_process`: the number in the list, and the line. It may write, expire or close.
  abbrev pub Process : Type ℓ
  Process = Client → ℕ → Bytes → Return × Client

module _ {ℓ} {World : Type ℓ} where
  abbrev pub puts : Reply → Client World → Client World
  puts r c = record c { output = r ∷ c.output }

  -- `new_cmd_list_ptr`
  abbrev pub new_cmd_list_ptr : Client World → Bytes → Client World
  new_cmd_list_ptr c line = record c { cmd_list = line ∷ c.cmd_list }

module _ {ℓ} {World : Type ℓ} (process : Process World) where
  -- The loop of `client_process_command_list`; `ret` is the result so far.
  unfoldable pub run_list : Bool → List Bytes → ℕ → Return → Client World → Return × Client World
  run_list list_ok [] num ret c = (ret, c)
  run_list list_ok (cmd ∷ list) num ret c =
      let (ret', c') = process c num cmd in
      elim (not (is_ok ret') || c'.expired) [
        | true ↦ (ret', c')
        | false ↦
            run_list list_ok list (add_uint num 1) ret'
              (if list_ok then puts list_success c' else c')
      ]

  unfoldable pub process_command_list : Client World → Bool → List Bytes → Return × Client World
  unfolding run_list
  process_command_list c list_ok list = run_list list_ok list 0 ok c

  -- The end of a command or of a list: `if (ret == OK) command_success; client_write_output`
  unfoldable pub finish : Return → Client World → Client World
  finish ret c = if is_ok ret then puts success c else c

  -- `client_process_line` in a command list that is at its end
  unfoldable pub end_list : Client World → Bool → Return × Client World
  unfolding process_command_list finish reverse_onto
  end_list c list_ok =
      let list = reverse_onto c.cmd_list [] in
      let (ret, c') = process_command_list (record c { cmd_list = list }) list_ok list in
      if is_close ret || c'.expired
      then (close, c')
      else (ret, record (finish ret c') { cmd_list = []; mode = none })

  -- a further line of a command list
  unfoldable pub add_to_list : Client World → Bytes → Return × Client World
  unfolding strlen
  add_to_list c line =
      let c' : Client World = record c {
        cmd_list_size = add_size c.cmd_list_size (add_size (strlen line) 1);
      } in
      if ltb c'.max_command_list_size c'.cmd_list_size
      then (close, c')
      else (ok, new_cmd_list_ptr c' line)

  -- a line outside a command list
  unfoldable pub single_line : Client World → Bytes → Return × Client World
  unfolding same finish
  single_line c line =
      if same line list_begin
      then (ok, record c { mode = some false })
      else if same line list_ok_begin
      then (ok, record c { mode = some true })
      else let (ret, c') = process c 0 line in
        if is_close ret || c'.expired then (close, c') else (ret, finish ret c')

  unfoldable pub process_line : Client World → Bytes → Return × Client World
  unfolding same end_list add_to_list single_line
  process_line c line =
      if same line (bytes "noidle")
      then (ok, if c.idle_waiting then puts success (record c { idle_waiting = false }) else c)
      else if c.idle_waiting
      then (close, c)
      else elim c.mode [
        | some list_ok ↦ if same line list_end then end_list c list_ok else add_to_list c line
        | none ↦ single_line c line
      ]
