-- ===== src/Output/Buffers.antt =====
-- src/client_write.c: flushing the deferred buffers.
use mathlib.Core.Path.{subst}
use mpd.Base.{
  true, ℕ, ◌+◌, ◌-◌, ◌≤◌, ◌<◌, false, ◌≡◌, refl, sym, ap, ◌∙◌, List, [], ◌∷◌, ◌++◌, length, take,
  drop, ltb, ◌==◌, sub_size, size_mod, arith, append-nil, append_assoc, take_all, take-append-drop,
  length-drop, inl, inr, Bool-cases,
}
use mpd.Tokenizer.{Bytes}
use mpd.Output.{again, Channel, Client, header_size, write_deferred_buffer, flush}
use mpd.Output.Writes.{
  Wrote, sent_to, wrote, broke, unreported, Repeat, Repeat-from, Reaches, Reaches-trans, here,
  write_deferred_buffer-Write,
}

-- the bytes of a queue of buffers
unfoldable pub gather : List Bytes → Bytes
gather [] = []
gather (b ∷ bs) = b ++ gather bs

-- the memory of a queue of buffers
unfoldable pub footprint : List Bytes → ℕ
footprint [] = 0
footprint (b ∷ bs) = header_size + length b + footprint bs

unfoldable pub IsFilled : List Bytes → Type 0
IsFilled [] = Unit {0}
IsFilled (b ∷ bs) = (0 < length b) × IsFilled bs

pub sub_size_le : (a b : ℕ) → b ≤ a → a < size_mod → sub_size a b ≡ a - b
sub_size_le a b le lt = omega arith

module _ (ch : Channel) where
  -- What flushing the buffers `bs` does.
  pub record Flushed (c c' : Client ch) (bs : List Bytes) : Type 0 where
    pub bytes : c'.deferred_bytes ≡ footprint c'.deferred_send
    pub bytes_le : c'.deferred_bytes ≤ c.deferred_bytes
    pub filled : IsFilled c'.deferred_send
    pub all : sent_to ch c' ++ gather c'.deferred_send ≡ sent_to ch c ++ gather bs
    pub reached : Reaches ch c.channel c'.channel
    pub same_buf : c'.send_buf ≡ c.send_buf
    pub same_max : c'.max_output_buffer_size ≡ c.max_output_buffer_size

  -- the bytes sent and those left of the first buffer
  cut_buffer :
      (c c' : Client ch) (b : Bytes) (bs : List Bytes) (n : ℕ)
      → Wrote ch c c' b n
      → sent_to ch c' ++ (drop n b ++ gather bs) ≡ sent_to ch c ++ (b ++ gather bs)
  cut_buffer c c' b bs n w = rw (
    w.sent,
    append_assoc (sent_to ch c) (take n b) (drop n b ++ gather bs),
    ← append_assoc (take n b) (drop n b) (gather bs),
    take-append-drop n b,
  )

  -- the three ends of a round of the loop
  flush-stuck :
      (b : Bytes) (bs : List Bytes) (c : Client ch)
      → ((write_deferred_buffer ch c b).0 == 0) ≡ true
      → flush ch (b ∷ bs) c ≡ record (write_deferred_buffer ch c b).1 { deferred_send = b ∷ bs }
  unfolding flush
  flush-stuck b bs c z = rw (z, flush)

  flush-cut :
      (b : Bytes) (bs : List Bytes) (c : Client ch)
      → ((write_deferred_buffer ch c b).0 == 0) ≡ false
      → ltb (write_deferred_buffer ch c b).0 (length b) ≡ true
      → flush ch (b ∷ bs) c ≡ record (write_deferred_buffer ch c b).1 {
        deferred_send = drop (write_deferred_buffer ch c b).0 b ∷ bs;
        deferred_bytes =
            sub_size
              (write_deferred_buffer ch c b).1.deferred_bytes
              (write_deferred_buffer ch c b).0;
      }
  unfolding flush
  flush-cut b bs c z l = rw (z, l, flush)

  flush-whole :
      (b : Bytes) (bs : List Bytes) (c : Client ch)
      → ((write_deferred_buffer ch c b).0 == 0) ≡ false
      → ltb (write_deferred_buffer ch c b).0 (length b) ≡ false
      → flush ch (b ∷ bs) c
        ≡ flush ch bs (record (write_deferred_buffer ch c b).1 {
          deferred_bytes =
              sub_size (write_deferred_buffer ch c b).1.deferred_bytes (header_size + length b);
        })
  unfolding flush
  flush-whole b bs c z l = rw (z, l, flush)

  stuck-Flushed :
      (b : Bytes) (bs : List Bytes) (c c' : Client ch) (n : ℕ)
      → c.deferred_bytes ≡ footprint (b ∷ bs)
      → IsFilled (b ∷ bs)
      → Wrote ch c c' b n
      → n ≡ 0
      → Flushed c (record c' { deferred_send = b ∷ bs }) (b ∷ bs)
  stuck-Flushed b bs c c' n e f w z = record {
    bytes = w.same_bytes ∙ e;
    bytes_le = omega (arith, w.same_bytes);
    filled = f;
    all =
        ap (λ s. s ++ gather (b ∷ bs))
          (w.sent ∙ ap (λ k. sent_to ch c ++ take k b) z ∙ append-nil (sent_to ch c));
    reached = w.reached;
    same_buf = w.same_buf;
    same_max = w.same_max;
  }

  cut-Flushed :
      (b : Bytes) (bs : List Bytes) (c c' : Client ch) (n : ℕ)
      → c.deferred_bytes ≡ footprint (b ∷ bs)
      → c.deferred_bytes < size_mod
      → IsFilled (b ∷ bs)
      → Wrote ch c c' b n
      → n < length b
      → Flushed c
          (record c' {
            deferred_send = drop n b ∷ bs;
            deferred_bytes = sub_size c'.deferred_bytes n;
          })
          (b ∷ bs)
  unfolding footprint IsFilled gather
  cut-Flushed b bs c c' n e lt f w less =
      let left : sub_size c'.deferred_bytes n ≡ c'.deferred_bytes - n =
        sub_size_le _ n (omega (arith, w.same_bytes, e)) (omega (arith, w.same_bytes)) in
      record {
        bytes = omega (arith, left, w.same_bytes, e, length-drop n b);
        bytes_le = omega (arith, left, w.same_bytes);
        filled = (omega (arith, length-drop n b), f.1);
        all = cut_buffer c c' b bs n w;
        reached = w.reached;
        same_buf = w.same_buf;
        same_max = w.same_max;
      }

  -- the memory after a whole buffer is sent
  whole-bytes :
      (b : Bytes) (bs : List Bytes) (c c' : Client ch) (n : ℕ)
      → c.deferred_bytes ≡ footprint (b ∷ bs)
      → c.deferred_bytes < size_mod
      → Wrote ch c c' b n
      → sub_size c'.deferred_bytes (header_size + length b) ≡ footprint bs
  unfolding footprint
  whole-bytes b bs c c' n e lt w =
      sub_size_le _ (header_size + length b) (omega (arith, w.same_bytes, e))
        (omega (arith, w.same_bytes))
      ∙ omega (arith, w.same_bytes, e)

  whole-Flushed :
      (b : Bytes) (bs : List Bytes) (c c' c'' : Client ch) (n : ℕ)
      → c.deferred_bytes ≡ footprint (b ∷ bs)
      → c.deferred_bytes < size_mod
      → Wrote ch c c' b n
      → length b ≤ n
      → Flushed
          (record c' { deferred_bytes = sub_size c'.deferred_bytes (header_size + length b) })
          c''
          bs
      → Flushed c c'' (b ∷ bs)
  unfolding footprint gather
  whole-Flushed b bs c c' c'' n e lt w le fl =
      let left = whole-bytes b bs c c' n e lt w in
      record {
        bytes = fl.bytes;
        bytes_le = omega (arith, fl.bytes_le, left, e);
        filled = fl.filled;
        all =
            fl.all
            ∙ ap (λ s. s ++ gather bs) w.sent
            ∙ rw (take_all n b le, append_assoc (sent_to ch c) b (gather bs)) refl;
        reached = Reaches-trans ch w.reached fl.reached;
        same_buf = fl.same_buf ∙ w.same_buf;
        same_max = fl.same_max ∙ w.same_max;
      }

  -- What flushing the buffers `bs` does: their bytes are sent or kept, the memory counted right; or the client
  -- expires, and was sent a beginning of them; or some are taken with the status `again`.
  pub data Flush (c c' : Client ch) (bs : List Bytes) : Type 0 where
    kept : Flushed c c' bs → Flush c c' bs
    broken :
        c'.expired ≡ true
        → (rest : Bytes) → sent_to ch c' ++ rest ≡ sent_to ch c ++ gather bs
        → Flush c c' bs
    repeated : Repeat ch c.channel (sent_to ch c ++ gather bs) → Flush c c' bs

  broke-Flush :
      (b : Bytes) (bs : List Bytes) (c c' : Client ch) (k : ℕ)
      → c'.expired ≡ true
      → sent_to ch c' ≡ sent_to ch c ++ take k b
      → Flush c (record c' { deferred_send = b ∷ bs }) (b ∷ bs)
  unfolding gather
  broke-Flush b bs c c' k x e = broken x (drop k b ++ gather bs) (
      rw (
        e,
        append_assoc (sent_to ch c) (take k b) (drop k b ++ gather bs),
        ← append_assoc (take k b) (drop k b) (gather bs),
        take-append-drop k b,
      ))

  unreported-Flush :
      (b : Bytes) (bs : List Bytes) (c c' : Client ch) (k : ℕ) (s : ch.State)
      → ch.write c.channel b ≡ (again, k, s)
      → 0 < k
      → Flush c c' (b ∷ bs)
  unfolding gather
  unreported-Flush b bs c c' k s e pos = repeated (record {
    state = c.channel;
    next = s;
    reached = here;
    chars = b;
    rest = gather bs;
    count = k;
    wrote = e;
    some = pos;
    before = refl;
  })

  -- behind a buffer that was sent
  whole_sent :
      (b : Bytes) (bs : List Bytes) (c c' : Client ch) (n : ℕ)
      → Wrote ch c c' b n
      → length b ≤ n
      → sent_to ch c' ++ gather bs ≡ sent_to ch c ++ gather (b ∷ bs)
  unfolding gather
  whole_sent b bs c c' n w le =
      ap (λ s. s ++ gather bs) w.sent
      ∙ rw (take_all n b le, append_assoc (sent_to ch c) b (gather bs)) refl

  whole-Flush :
      (b : Bytes) (bs : List Bytes) (c c' c'' : Client ch) (n : ℕ)
      → c.deferred_bytes ≡ footprint (b ∷ bs)
      → c.deferred_bytes < size_mod
      → Wrote ch c c' b n
      → length b ≤ n
      → Flush
          (record c' { deferred_bytes = sub_size c'.deferred_bytes (header_size + length b) })
          c''
          bs
      → Flush c c'' (b ∷ bs)
  whole-Flush b bs c c' c'' n e lt w le (kept fl) =
      kept (whole-Flushed b bs c c' c'' n e lt w le fl)
  whole-Flush b bs c c' c'' n e lt w le (broken x rest s) =
      broken x rest (s ∙ whole_sent b bs c c' n w le)
  whole-Flush b bs c c' c'' n e lt w le (repeated r) =
      repeated
        (Repeat-from ch w.reached (subst (Repeat ch c'.channel) (whole_sent b bs c c' n w le) r))

  pub flush-Flush :
      (bs : List Bytes) (c : Client ch)
      → c.deferred_bytes ≡ footprint bs
      → c.deferred_bytes < size_mod
      → IsFilled bs
      → Flush c (flush ch bs c) bs
  unfolding flush footprint IsFilled gather
  flush-Flush [] c e lt f = kept (record {
    bytes = e;
    bytes_le = omega arith;
    filled = tt;
    all = refl;
    reached = here;
    same_buf = refl;
    same_max = refl;
  })
  flush-Flush (b ∷ bs) c e lt f =
      let r = write_deferred_buffer ch c b in
      elim (write_deferred_buffer-Write ch c b) [
        | unreported k s w pos ↦ unreported-Flush b bs c _ k s w pos
        | broke z x k w ↦
            subst (λ x'. Flush c x' (b ∷ bs)) (sym (flush-stuck b bs c (ground (arith, z))))
              (broke-Flush b bs c r.1 k x w)
        | wrote w ↦ elim (Bool-cases (r.0 == 0)) [
          | inl z ↦
              subst (λ x. Flush c x (b ∷ bs)) (sym (flush-stuck b bs c z))
                (kept (stuck-Flushed b bs c r.1 r.0 e f w (ground (arith, z))))
          | inr nz ↦ elim (Bool-cases (ltb r.0 (length b))) [
            | inl less ↦
                subst (λ x. Flush c x (b ∷ bs)) (sym (flush-cut b bs c nz less))
                  (kept (cut-Flushed b bs c r.1 r.0 e lt f w (ground (arith, less))))
            | inr more ↦
                let left = whole-bytes b bs c r.1 r.0 e lt w in
                subst (λ x. Flush c x (b ∷ bs)) (sym (flush-whole b bs c nz more))
                  (whole-Flush b bs c r.1 _ r.0 e lt w (ground (arith, more))
                    (flush-Flush bs _ left (omega (arith, left, e)) f.1))
          ]
        ]
      ]
