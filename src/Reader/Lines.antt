-- ===== src/Reader/Lines.antt =====
-- src/client_read.c: the lines that are processed, beside those of the stream.
use mathlib.Core.Path.{subst}
use mpd.Base.{
  ℕ, zero, suc, ◌+◌, ◌-◌, ◌≤◌, Bool, true, false, ◌≡◌, refl, sym, ap, ◌∙◌, none, some, [], ◌++◌,
  ◌==◌, length, take, drop, arith, Bool-cases, if-true, if-false, inl, inr,
}
use mpd.Tokenizer.{Bytes}
use mpd.Client.{Return, ok, close}
use mpd.Fifo.{Fifo, available, read, consume, slice, append, fill}
use mpd.Fifo.Refine.{contents, IsValid, consume-contents, length-contents, append-contents}
use mpd.Reader.{newline, memchr, stops, read_line, process_lines, input_received}
use mpd.Reader.Serve.{serve, served, first_line}

read-empty : (f : Fifo) → (f.start == f.end) ≡ true → read f ≡ none
unfolding read
read-empty f t = if-true _ _ t

read-some : (f : Fifo) → (f.start == f.end) ≡ false → read f ≡ some (contents f)
unfolding read contents available
read-some f n = if-false _ _ n

consume-size : (f : Fifo) (n : ℕ) → (consume f n).size ≡ f.size
unfolding consume
consume-size f n = refl

consume-end :
    (f : Fifo) (k rounds : ℕ)
    → f.end ≤ f.start + suc rounds
    → (consume f (k + 1)).end ≤ (consume f (k + 1)).start + rounds
unfolding consume
consume-end f k rounds le = omega arith

suc_plus : (k : ℕ) → suc k ≡ k + 1
suc_plus k = omega arith

module _ {ℓ} {World : Type ℓ} (chomp : Bytes → Bytes) (expired : World → Bool)
    (process_line : World → Bytes → Return × World) where
  -- What a loop over the lines of `f` has done: what `serve` does with its bytes.
  pub Serves : Fifo → World → Return × Fifo × World → Type ℓ
  Serves f w (ret, f', w') =
      (serve chomp expired process_line [] (contents f) w ≡ (ret, contents f', w'))
      × IsValid f'
      × (f'.size ≡ f.size)

  -- nothing is read
  idle-Serves :
      (f : Fifo) (w : World)
      → IsValid f
      → serve chomp expired process_line [] (contents f) w ≡ (ok, contents f, w)
      → Serves f w (ok, f, w)
  unfolding Serves
  idle-Serves f w v e = (e, v, refl)

  empty-Serves : (f : Fifo) (w : World) → IsValid f → contents f ≡ [] → Serves f w (ok, f, w)
  unfolding serve
  empty-Serves f w v e =
      idle-Serves f w v
        (subst (λ t. serve chomp expired process_line [] t w ≡ (ok, t, w)) (sym e) refl)

  -- the loop behind a line
  unfoldable go_on : ℕ → Return × World → Fifo → Return × Fifo × World
  go_on rounds (ret, w) f = elim (stops ret) [
    | true ↦ (ret, f, w)
    | false ↦ elim (expired w) [
      | true ↦ (close, f, w)
      | false ↦ process_lines chomp expired process_line rounds f w
    ]
  ]

  process_lines-none :
      (rounds : ℕ) (f : Fifo) (w : World)
      → read_line chomp expired process_line f ≡ none
      → process_lines chomp expired process_line (suc rounds) f w ≡ (ok, f, w)
  unfolding process_lines
  process_lines-none rounds f w e = rw (e, process_lines)

  process_lines-some :
      (rounds : ℕ) (f f' : Fifo) (w : World) (line : Bytes)
      → read_line chomp expired process_line f ≡ some (line, f')
      → process_lines chomp expired process_line (suc rounds) f w
        ≡ go_on rounds (process_line w line) f'
  unfolding process_lines go_on
  process_lines-some rounds f f' w line e = rw (e, process_lines)

  go_on-stop :
      (rounds : ℕ) (ret : Return) (w : World) (f : Fifo) (s : Bytes)
      → stops ret ≡ true
      → (go_on rounds (ret, w) f ≡ (ret, f, w))
        × (served chomp expired process_line (ret, w) s ≡ (ret, s, w))
  unfolding go_on served
  go_on-stop rounds ret w f s t = (rw (t, go_on) refl, rw (t, served) refl)

  go_on-expired :
      (rounds : ℕ) (ret : Return) (w : World) (f : Fifo) (s : Bytes)
      → stops ret ≡ false
      → expired w ≡ true
      → (go_on rounds (ret, w) f ≡ (close, f, w))
        × (served chomp expired process_line (ret, w) s ≡ (close, s, w))
  unfolding go_on served
  go_on-expired rounds ret w f s n t = (rw (n, t, go_on) refl, rw (n, t, served) refl)

  go_on-next :
      (rounds : ℕ) (ret : Return) (w : World) (f : Fifo) (s : Bytes)
      → stops ret ≡ false
      → expired w ≡ false
      → (go_on rounds (ret, w) f ≡ process_lines chomp expired process_line rounds f w)
        × (served chomp expired process_line (ret, w) s ≡ serve chomp expired process_line [] s w)
  unfolding go_on served
  go_on-next rounds ret w f s n n' = (rw (n, n', go_on) refl, rw (n, n', served) refl)

  -- the loop and `serve` go on alike behind a line
  go_on-Serves :
      (rounds : ℕ) (r : Return × World) (f f' : Fifo) (w : World)
      → serve chomp expired process_line [] (contents f) w
        ≡ served chomp expired process_line r (contents f')
      → IsValid f'
      → f'.size ≡ f.size
      → ((w' : World) → Serves f' w' (process_lines chomp expired process_line rounds f' w'))
      → Serves f w (go_on rounds r f')
  unfolding Serves
  go_on-Serves rounds (ret, w') f f' w e v same rest = elim (Bool-cases (stops ret)) [
    | inl t ↦
        let (g, s) = go_on-stop rounds ret w' f' (contents f') t in
        subst (Serves f w) (sym g) (e ∙ s, v, same)
    | inr n ↦ elim (Bool-cases (expired w')) [
      | inl t ↦
          let (g, s) = go_on-expired rounds ret w' f' (contents f') n t in
          subst (Serves f w) (sym g) (e ∙ s, v, same)
      | inr n' ↦
          let (g, s) = go_on-next rounds ret w' f' (contents f') n n' in
          let (e', v', same') = rest w' in subst (Serves f w) (sym g) (e ∙ s ∙ e', v', same' ∙ same)
    ]
  ]

  no_bytes : (f : Fifo) → f.end ≤ f.start → contents f ≡ []
  unfolding contents available slice
  no_bytes f le = let z : f.end - f.start ≡ 0 = omega arith in ap (slice f.buffer f.start) z

  read_line-empty :
      (f : Fifo) → (f.start == f.end) ≡ true → read_line chomp expired process_line f ≡ none
  unfolding read_line
  read_line-empty f t = rw (read-empty f t, read_line) refl

  read_line-unfinished :
      (f : Fifo)
      → (f.start == f.end) ≡ false
      → memchr newline (contents f) ≡ none
      → read_line chomp expired process_line f ≡ none
  unfolding read_line
  read_line-unfinished f n m = rw (read-some f n, m, read_line) refl

  read_line-finished :
      (f : Fifo) (n : ℕ)
      → (f.start == f.end) ≡ false
      → memchr newline (contents f) ≡ some n
      → read_line chomp expired process_line f
        ≡ some (chomp (take n (contents f)), consume f (n + 1))
  unfolding read_line
  read_line-finished f n t m = rw (read-some f t, m, read_line) refl

  process_lines-Serves :
      (rounds : ℕ) (f : Fifo) (w : World)
      → IsValid f
      → f.end ≤ f.start + rounds
      → Serves f w (process_lines chomp expired process_line rounds f w)
  unfolding process_lines
  process_lines-Serves zero f w v enough = empty-Serves f w v (no_bytes f (omega arith))
  process_lines-Serves (suc rounds) f w v enough = elim (Bool-cases (f.start == f.end)) [
    | inl t ↦
        subst (Serves f w) (sym (process_lines-none rounds f w (read_line-empty f t)))
          (empty-Serves f w v (no_bytes f (ground (arith, t))))
    | inr n ↦ elim (first_line chomp expired process_line (contents f) [] w) [
      | inl (m, e) ↦
          subst (Serves f w) (sym (process_lines-none rounds f w (read_line-unfinished f n m)))
            (idle-Serves f w v e)
      | inr (k, m, lt, e) ↦
          let line = chomp (take k (contents f)) in
          let fits : f.start + (k + 1) ≤ f.end = omega (arith, length-contents f, v.start_le) in
          let (c, v') = consume-contents f (k + 1) v fits in
          subst (Serves f w)
            (sym
              (process_lines-some rounds f (consume f (k + 1)) w line (read_line-finished f k n m)))
            (go_on-Serves rounds (process_line w line) f (consume f (k + 1)) w
              (e
                ∙ ap (served chomp expired process_line (process_line w line))
                    (ap (λ j. drop j (contents f)) (suc_plus k) ∙ sym c))
              v' (consume-size f (k + 1))
              λ w'.
                process_lines-Serves rounds (consume f (k + 1)) w' v'
                  (consume-end f k rounds enough))
    ]
  ]

  -- what `client_input_received` does with `bs` behind the bytes of a buffer
  pub input_received-Serves :
      (f : Fifo) (bs : Bytes) (w : World)
      → IsValid f
      → f.end + length bs ≤ f.size
      → (serve chomp expired process_line [] (contents f ++ bs) w ≡ (
        (input_received chomp expired process_line (fill f bs) w (length bs)).0,
        contents (input_received chomp expired process_line (fill f bs) w (length bs)).1,
        (input_received chomp expired process_line (fill f bs) w (length bs)).2,
      ))
        × IsValid (input_received chomp expired process_line (fill f bs) w (length bs)).1
        × ((input_received chomp expired process_line (fill f bs) w (length bs)).1.size ≡ f.size)
  unfolding input_received available Serves append fill
  input_received-Serves f bs w v le =
      let (e, v') = append-contents f bs v le in
      let f' = append (fill f bs) (length bs) in
      let (served, kept, same) =
        process_lines-Serves (available f') f' w v' (omega (arith, v'.start_le)) in
      (ap (λ t. serve chomp expired process_line [] t w) (sym e) ∙ served, kept, same)
