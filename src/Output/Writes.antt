-- ===== src/Output/Writes.antt =====
-- src/client_write.c: writing a part of some bytes.
use mathlib.Core.Path.{subst}
use mpd.Base.{
  zero, suc, ◌<◌, true, append_assoc, ℕ, ◌≤◌, ◌≡◌, refl, sym, ap, ◌∙◌, ◌++◌, length, take, arith,
  append-nil,
}
use mpd.Tokenizer.{Bytes}
use mpd.Output.{Status, normal, again, eof, error, Channel, Client, flushed, write_deferred_buffer}

module _ (ch : Channel) where
  abbrev pub sent_to : Client ch → Bytes
  sent_to c = ch.sent c.channel

  -- The channel comes from the first state to the second by writes.
  pub data Reaches (start : ch.State) : ch.State → Type 0 where
    here : Reaches start start
    further :
        {s s' : ch.State} (chars : Bytes) (st : Status) (n : ℕ)
        → Reaches start s
        → ch.write s chars ≡ (st, n, s')
        → Reaches start s'

  pub Reaches-trans : {s1 s2 s3 : ch.State} → Reaches s1 s2 → Reaches s2 s3 → Reaches s1 s3
  Reaches-trans a here = a
  Reaches-trans a (further chars st n b e) = further chars st n (Reaches-trans a b) e

  -- What writing a part of `chars` does: `n` bytes of it are sent, and nothing else changes but `expired`.
  pub record Wrote (c c' : Client ch) (chars : Bytes) (n : ℕ) : Type 0 where
    pub n_le : n ≤ length chars
    pub sent : sent_to c' ≡ sent_to c ++ take n chars
    pub reached : Reaches c.channel c'.channel
    pub same_buf : c'.send_buf ≡ c.send_buf
    pub same_deferred : c'.deferred_send ≡ c.deferred_send
    pub same_bytes : c'.deferred_bytes ≡ c.deferred_bytes
    pub same_max : c'.max_output_buffer_size ≡ c.max_output_buffer_size

  pub sent_of :
      (s : ch.State) (chars : Bytes) (st : Status) (n : ℕ) (s' : ch.State)
      → ch.write s chars ≡ (st, n, s')
      → (n ≤ length chars) × (ch.sent s' ≡ ch.sent s ++ take n chars)
  sent_of s chars st n s' e =
      let le : (ch.write s chars).1 ≤ length chars = ch.written_le s chars in
      let w : ch.sent (ch.write s chars).2 ≡ ch.sent s ++ take (ch.write s chars).1 chars =
        ch.sent-write s chars in
      (
        subst (λ a. a.1 ≤ length chars) e le,
        subst (λ a. ch.sent a.2 ≡ ch.sent s ++ take a.1 chars) e w,
      )

  pub none_sent :
      (s : ch.State) (chars : Bytes) (st : Status) (n : ℕ) (s' : ch.State)
      → ch.write s chars ≡ (st, n, s')
      → n ≡ 0
      → ch.sent s' ≡ ch.sent s
  none_sent s chars st n s' e z =
      (sent_of s chars st n s' e).1 ∙ ap (λ k. ch.sent s ++ take k chars) z ∙ append-nil _

  idle-Wrote :
      (c c' : Client ch) (chars : Bytes)
      → sent_to c' ≡ sent_to c
      → Reaches c.channel c'.channel
      → c'.send_buf ≡ c.send_buf
      → c'.deferred_send ≡ c.deferred_send
      → c'.deferred_bytes ≡ c.deferred_bytes
      → c'.max_output_buffer_size ≡ c.max_output_buffer_size
      → Wrote c c' chars 0
  idle-Wrote c c' chars e r b d n m = record {
    reached = r;
    n_le = omega arith;
    sent = e ∙ sym (append-nil _);
    same_buf = b;
    same_deferred = d;
    same_bytes = n;
    same_max = m;
  }

  -- The bytes `all` are to be sent, the channel came by writes from `start` to where those in front of
  -- `chars` were sent, each once, and there it took some of `chars` with the status `again`:
  -- `client_write_deferred_buffer` reports that none were written.
  pub record Repeat (start : ch.State) (all : Bytes) : Type 0 where
    pub state : ch.State
    pub next : ch.State
    pub reached : Reaches start state
    pub chars : Bytes
    pub rest : Bytes
    pub count : ℕ
    pub wrote : ch.write state chars ≡ (again, count, next)
    pub some : 0 < count
    pub before : ch.sent state ++ (chars ++ rest) ≡ all

  pub Repeat-from :
      {start s : ch.State} {all : Bytes} → Reaches start s → Repeat s all → Repeat start all
  Repeat-from a r = record {
    state = r.state;
    next = r.next;
    reached = Reaches-trans a r.reached;
    chars = r.chars;
    rest = r.rest;
    count = r.count;
    wrote = r.wrote;
    some = r.some;
    before = r.before;
  }

  pub Repeat-append :
      (start : ch.State) (all more : Bytes) → Repeat start all → Repeat start (all ++ more)
  Repeat-append start all more r = record {
    reached = r.reached;
    state = r.state;
    next = r.next;
    chars = r.chars;
    rest = r.rest ++ more;
    count = r.count;
    wrote = r.wrote;
    some = r.some;
    before =
        ap (λ t. ch.sent r.state ++ t) (sym (append_assoc r.chars r.rest more))
        ∙ sym (append_assoc (ch.sent r.state) (r.chars ++ r.rest) more)
        ∙ ap (λ t. t ++ more) r.before;
  }

  -- What `client_write_deferred_buffer` does: the bytes that it reports were sent; or the client expires,
  -- and was sent a part of them; or some are sent with the status `again`.
  pub data Write (c c' : Client ch) (chars : Bytes) (n : ℕ) : Type 0 where
    wrote : Wrote c c' chars n → Write c c' chars n
    broke :
        n ≡ 0
        → c'.expired ≡ true
        → (k : ℕ) → sent_to c' ≡ sent_to c ++ take k chars
        → Write c c' chars n
    unreported :
        (k : ℕ) (s : ch.State)
        → ch.write c.channel chars ≡ (again, k, s)
        → 0 < k
        → Write c c' chars n

  flushed-Write :
      (c : Client ch) (chars : Bytes) (a : Status × ℕ × ch.State)
      → ch.write c.channel chars ≡ a
      → Write c (flushed ch c a).1 chars (flushed ch c a).0
  flushed-Write c chars (normal, n, s) e =
      let (le, w) = sent_of c.channel chars normal n s e in
      wrote (record {
        n_le = le;
        sent = w;
        reached = further chars normal n here e;
        same_buf = refl;
        same_deferred = refl;
        same_bytes = refl;
        same_max = refl;
      })
  flushed-Write c chars (again, zero, s) e = wrote (
      idle-Wrote c _ chars (none_sent c.channel chars again 0 s e refl)
        (further chars again 0 here e) refl refl refl refl)
  flushed-Write c chars (again, suc n, s) e = unreported (suc n) s e (omega arith)
  flushed-Write c chars (eof, n, s) e = broke refl refl n (sent_of c.channel chars eof n s e).1
  flushed-Write c chars (error, n, s) e = broke refl refl n (sent_of c.channel chars error n s e).1

  pub write_deferred_buffer-Write :
      (c : Client ch) (chars : Bytes)
      → Write c (write_deferred_buffer ch c chars).1 chars (write_deferred_buffer ch c chars).0
  unfolding write_deferred_buffer
  write_deferred_buffer-Write c chars = flushed-Write c chars (ch.write c.channel chars) refl
