-- ===== src/Output/Direct.antt =====
-- src/client_write.c: deferring output, and writing past the buffers.
use mathlib.Core.Path.{subst}
use mpd.Base.{
  ℕ, ◌+◌, ◌≤◌, ◌<◌, true, false, ◌≡◌, refl, sym, ap, ◌∙◌, List, [], ◌∷◌, ◌++◌, length, take, drop,
  ltb, add_size, size_mod, arith, append-nil, append_assoc, take_all, take-append-drop, length-drop,
  inl, inr, Bool-cases, if-true, if-false, if◌then◌else◌,
}
use mpd.Tokenizer.{Bytes}
use mpd.Output.{
  Status, normal, again, eof, error, Channel, Client, header_size, send_buf_size, defer_output,
  written,
}
use mpd.Output.Buffers.{gather, footprint, IsFilled}
use mpd.Output.Writes.{sent_to, sent_of, Reaches, Reaches-trans, here, further}

gather-append : (bs : List Bytes) (b : Bytes) → gather (bs ++ (b ∷ [])) ≡ gather bs ++ b
unfolding gather
gather-append [] b = append-nil b
gather-append (x ∷ bs) b = rw (gather-append bs b, append_assoc x (gather bs) b)

footprint-append :
    (bs : List Bytes) (b : Bytes)
    → footprint (bs ++ (b ∷ [])) ≡ footprint bs + (header_size + length b)
unfolding footprint
footprint-append [] b = omega arith
footprint-append (x ∷ bs) b = omega (arith, footprint-append bs b)

append-IsFilled :
    (bs : List Bytes) (b : Bytes) → IsFilled bs → 0 < length b → IsFilled (bs ++ (b ∷ []))
unfolding IsFilled
append-IsFilled [] b f pos = (pos, tt)
append-IsFilled (x ∷ bs) b f pos = (f.0, append-IsFilled bs b f.1 pos)

joined : {s1 s2 g1 g2 t : Bytes} → s1 ≡ s2 → g1 ≡ g2 → s2 ++ g2 ≡ t → s1 ++ g1 ≡ t
joined es eg e = rw (es, eg) e

module _ (ch : Channel) (start : ch.State) where
  -- A connected client whose channel came by writes from `start`, and whose deferred buffers are counted right, and within the limit.
  pub record IsBooked (c : Client ch) : Type 0 where
    pub alive : c.expired ≡ false
    pub reached : Reaches ch start c.channel
    pub bytes : c.deferred_bytes ≡ footprint c.deferred_send
    pub bytes_le : c.deferred_bytes ≤ c.max_output_buffer_size
    pub filled : IsFilled c.deferred_send
    pub max_fits : c.max_output_buffer_size + (header_size + send_buf_size) < size_mod

  -- What `client_defer_output` does with the bytes `b`.
  pub data Deferred (c c' : Client ch) (b : Bytes) : Type 0 where
    queued :
        IsBooked c'
        → sent_to ch c' ≡ sent_to ch c
        → gather c'.deferred_send ≡ gather c.deferred_send ++ b
        → c'.send_buf ≡ c.send_buf
        → Deferred c c' b
    overflown : c'.expired ≡ true → sent_to ch c' ≡ sent_to ch c → Deferred c c' b

  add_size_small :
      (a b m : ℕ)
      → a ≤ m
      → b ≤ send_buf_size
      → m + (header_size + send_buf_size) < size_mod
      → add_size a (header_size + b) ≡ a + (header_size + b)
  add_size_small a b m le small fits = omega arith

  pub defer_output-Deferred :
      (c : Client ch) (b : Bytes)
      → IsBooked c
      → 0 < length b
      → length b ≤ send_buf_size
      → Deferred c (defer_output ch c b) b
  unfolding defer_output
  defer_output-Deferred c b k pos small =
      let m = c.max_output_buffer_size in
      let added = add_size_small c.deferred_bytes (length b) m k.bytes_le small k.max_fits in
      let sum = add_size c.deferred_bytes (header_size + length b) in
      let c1 : Client ch = record c { deferred_bytes = sum } in
      let c2 : Client ch = record c1 { deferred_send = c.deferred_send ++ (b ∷ []) } in
      elim (Bool-cases (ltb m sum)) [
        | inl over ↦ subst (λ x. Deferred c x b) (sym (if-true _ _ over)) (overflown refl refl)
        | inr fits ↦
            subst (λ x. Deferred c x b) (sym (if-false _ _ fits))
              (queued
                (record {
                  alive = k.alive;
                  reached = k.reached;
                  bytes = omega (arith, added, k.bytes, footprint-append c.deferred_send b);
                  bytes_le = ground (arith, fits);
                  filled = append-IsFilled c.deferred_send b k.filled pos;
                  max_fits = k.max_fits;
                })
                refl (gather-append c.deferred_send b) refl)
      ]

  -- What `client_write_direct` does with the bytes `b`, the deferred buffers being empty: the
  -- bytes are sent or deferred, or the client expires and was sent a beginning of them.
  pub data Direct (c c' : Client ch) (b : Bytes) : Type 0 where
    accepted :
        IsBooked c' → sent_to ch c' ++ gather c'.deferred_send ≡ sent_to ch c ++ b → Direct c c' b
    broken :
        c'.expired ≡ true
        → (rest : Bytes) → sent_to ch c' ++ rest ≡ sent_to ch c ++ b
        → Direct c c' b

  moved-IsBooked :
      (c : Client ch) (s : ch.State)
      → IsBooked c
      → Reaches ch c.channel s
      → IsBooked (record c { channel = s })
  moved-IsBooked c s k r = record {
    alive = k.alive;
    reached = Reaches-trans ch k.reached r;
    bytes = k.bytes;
    bytes_le = k.bytes_le;
    filled = k.filled;
    max_fits = k.max_fits;
  }

  partly_sent : (s s' : Bytes) (b : Bytes) (n : ℕ) → s' ≡ s ++ take n b → s' ++ drop n b ≡ s ++ b
  partly_sent s s' b n e = rw (e, append_assoc s (take n b) (drop n b), take-append-drop n b) refl

  -- the rest of a partial write is deferred
  rest-Direct :
      (c : Client ch) (b : Bytes) (n : ℕ) (s : ch.State)
      → IsBooked c
      → c.deferred_send ≡ []
      → length b ≤ send_buf_size
      → n < length b
      → Reaches ch c.channel s
      → ch.sent s ≡ sent_to ch c ++ take n b
      → Direct c (defer_output ch (record c { channel = s }) (drop n b)) b
  unfolding gather
  rest-Direct c b n s k e small less r w =
      let c1 : Client ch = record c { channel = s } in
      elim (defer_output-Deferred c1 (drop n b) (moved-IsBooked c s k r)
        (omega (arith, length-drop n b)) (omega (arith, length-drop n b))) [
          | queued k' se g u ↦
              accepted k' (joined se (g ∙ ap (λ d. gather d ++ drop n b) e) (partly_sent _ _ b n w))
          | overflown x se ↦
              broken x (drop n b) (ap (λ x. x ++ drop n b) se ∙ partly_sent _ _ b n w)
        ]

  sent-Direct :
      (c : Client ch) (b : Bytes) (n : ℕ) (s : ch.State)
      → IsBooked c
      → c.deferred_send ≡ []
      → length b ≤ send_buf_size
      → Reaches ch c.channel s
      → ch.sent s ≡ sent_to ch c ++ take n b
      → Direct c
          (if ltb n (length b)
            then defer_output ch (record c { channel = s }) (drop n b)
            else record c { channel = s })
          b
  unfolding gather
  sent-Direct c b n s k e small r w = elim (Bool-cases (ltb n (length b))) [
    | inl less ↦
        subst (λ x. Direct c x b) (sym (if-true _ _ less))
          (rest-Direct c b n s k e small (ground (arith, less)) r w)
    | inr more ↦
        subst (λ x. Direct c x b) (sym (if-false _ _ more))
          (accepted (moved-IsBooked c s k r) (
            ap (λ d. ch.sent s ++ gather d) e
            ∙ append-nil _
            ∙ w
            ∙ ap (λ t. sent_to ch c ++ t) (take_all n b (ground (arith, more)))))
  ]

  pub written-Direct :
      (c : Client ch) (b : Bytes) (a : Status × ℕ × ch.State)
      → IsBooked c
      → c.deferred_send ≡ []
      → length b ≤ send_buf_size
      → ch.write c.channel b ≡ a
      → Direct c (written ch c b a) b
  unfolding written
  written-Direct c b (normal, n, s) k e small w =
      sent-Direct c b n s k e small (further b normal n here w)
        (sent_of ch c.channel b normal n s w).1
  written-Direct c b (again, n, s) k e small w =
      sent-Direct c b n s k e small (further b again n here w)
        (sent_of ch c.channel b again n s w).1
  written-Direct c b (eof, n, s) k e small w =
      broken refl (drop n b) (partly_sent _ _ b n (sent_of ch c.channel b eof n s w).1)
  written-Direct c b (error, n, s) k e small w =
      broken refl (drop n b) (partly_sent _ _ b n (sent_of ch c.channel b error n s w).1)
