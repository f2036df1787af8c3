-- ===== src/Idle/Events.antt =====
-- src/client_idle.c: what a client is told of events, and when it has nothing pending.
use mathlib.Core.Path.{subst}
use mpd.Base.{
  ℕ, zero, suc, ◌+◌, ◌<◌, ◌≡◌, refl, sym, ap, ◌∙◌, Bool, true, false, ◌&&◌, List, [], ◌∷◌, ◌++◌,
  length, arith, Bool-cases, if-true, if-false, inl, inr, append_assoc, if◌then◌else◌, ◌==◌,
}
use mpd.Tokenizer.{Bytes}
use mpd.Idle.{
  Flags, both, either, any_bit, is_set, idle_names, Line, changed, ok_line, Client, announce,
  notify, callback, idle_wait,
}

-- the name of the bit `i`
unfoldable pub name_of : List Bytes → ℕ → Bytes
name_of [] i = []
name_of (name ∷ names) zero = name
name_of (name ∷ names) (suc i) = name_of names i

-- A line stands in an output.
pub record IsTold (line : Line) (output : List Line) : Type 0 where
  pub front : List Line
  pub back : List Line
  pub eq : output ≡ front ++ (line ∷ back)

IsTold-behind : (line : Line) (a b : List Line) → IsTold line b → IsTold line (a ++ b)
IsTold-behind line a b t = record {
  front = a ++ t.front;
  back = t.back;
  eq = ap (λ x. a ++ x) t.eq ∙ sym (append_assoc a t.front (line ∷ t.back));
}

IsTold-before : (line : Line) (a b : List Line) → IsTold line a → IsTold line (a ++ b)
IsTold-before line a b t = record {
  front = t.front;
  back = t.back ++ b;
  eq = ap (λ x. x ++ b) t.eq ∙ append_assoc t.front (line ∷ t.back) b;
}

any_bit-true : (n : ℕ) (f : Flags) (i : ℕ) → i < n → f i ≡ true → any_bit n f ≡ true
unfolding any_bit
any_bit-true zero f i lt e = absurd (omega arith)
any_bit-true (suc n) f i lt e = elim (Bool-cases (i == n)) [
  | inl t ↦
      let here : f n ≡ true = subst (λ k. f k ≡ true) (ground (arith, t)) e in ground (arith, here)
  | inr k ↦ ground (arith, any_bit-true n f i (ground (arith, k)) e)
]

IsTold-first :
    (b : Bool) (line : Line) (rest : List Line)
    → b ≡ true
    → IsTold line (if b then line ∷ rest else rest)
IsTold-first b line rest e =
    subst (IsTold line) (sym (if-true _ _ e)) (record { front = []; back = rest; eq = refl })

IsTold-later :
    (b : Bool) (line other : Line) (rest : List Line)
    → IsTold line rest
    → IsTold line (if b then other ∷ rest else rest)
IsTold-later true line other rest t = IsTold-behind line (other ∷ []) rest t
IsTold-later false line other rest t = t

announce-IsTold :
    (names : List Bytes) (j k i : ℕ) (f : Flags)
    → i < length names
    → k ≡ j + i
    → f k ≡ true
    → IsTold (changed (name_of names i)) (announce j names f)
unfolding announce name_of
announce-IsTold [] j k i f lt ek e = absurd (omega arith)
announce-IsTold (name ∷ names) j k zero f lt ek e =
    IsTold-first (f j) (changed name) (announce (j + 1) names f)
      (subst (λ x. f x ≡ true) (omega arith) e)
announce-IsTold (name ∷ names) j k (suc i) f lt ek e =
    IsTold-later (f j) _ (changed name) (announce (j + 1) names f)
      (announce-IsTold names (j + 1) k i f (omega arith) (omega arith) e)

notify-IsTold :
    (c : Client) (i : ℕ)
    → i < length idle_names
    → c.idle_flags i ≡ true
    → c.idle_subscriptions i ≡ true
    → IsTold (changed (name_of idle_names i)) (notify c).output
unfolding notify
notify-IsTold c i lt e s = IsTold-behind _ c.output _ (
    IsTold-before _ _ (ok_line ∷ []) (
      announce-IsTold idle_names 0 i i (both c.idle_flags c.idle_subscriptions) lt (omega arith)
        (ground (arith, e, s))))

-- An event that a waiting client subscribed is told at once, and ends the wait.
pub callback-IsTold :
    (c : Client) (flags : Flags) (i : ℕ)
    → c.expired ≡ false
    → c.idle_waiting ≡ true
    → i < length idle_names
    → flags i ≡ true
    → c.idle_subscriptions i ≡ true
    → IsTold (changed (name_of idle_names i)) (callback flags c).output
      × ((callback flags c).idle_waiting ≡ false)
unfolding callback notify
callback-IsTold c flags i alive waiting lt e s =
    let c' : Client = record c { idle_flags = either c.idle_flags flags } in
    let pending : either c.idle_flags flags i ≡ true = ground (arith, e) in
    let some : is_set (both c'.idle_flags c'.idle_subscriptions) ≡ true =
      any_bit-true 32 (both c'.idle_flags c'.idle_subscriptions) i (omega arith)
        (ground (arith, pending, s)) in
    let now : (c'.idle_waiting && is_set (both c'.idle_flags c'.idle_subscriptions)) ≡ true =
      ground (arith, waiting, some) in
    let is : callback flags c ≡ notify c' = if-false _ _ alive ∙ if-true _ _ now in
    subst (λ x. IsTold (changed (name_of idle_names i)) x.output × (x.idle_waiting ≡ false))
      (sym is) (notify-IsTold c' i lt pending s, refl)

-- Events that come one after the other.
unfoldable pub events : List Flags → Client → Client
unfolding callback
events [] c = c
events (flags ∷ rest) c = events rest (callback flags c)

-- A client that does not wait: what it keeps from one state to the next.
record IsBusy (c c' : Client) : Type 0 where
  alive : c'.expired ≡ false
  busy : c'.idle_waiting ≡ false
  kept : (i : ℕ) → c.idle_flags i ≡ true → c'.idle_flags i ≡ true
  same_output : c'.output ≡ c.output

callback-IsBusy :
    (c : Client) (flags : Flags)
    → c.expired ≡ false
    → c.idle_waiting ≡ false
    → IsBusy c (callback flags c)
      × ((i : ℕ) → flags i ≡ true → (callback flags c).idle_flags i ≡ true)
unfolding callback
callback-IsBusy c flags alive busy =
    let c' : Client = record c { idle_flags = either c.idle_flags flags } in
    let later : (c'.idle_waiting && is_set (both c'.idle_flags c'.idle_subscriptions)) ≡ false =
      ground (arith, busy) in
    let is : callback flags c ≡ c' = if-false _ _ alive ∙ if-false _ _ later in
    subst (λ x. IsBusy c x × ((i : ℕ) → flags i ≡ true → x.idle_flags i ≡ true)) (sym is)
      (
        record { alive = alive; busy = busy; kept = λ i e. ground (arith, e); same_output = refl },
        λ i e. ground (arith, e),
      )

events-IsBusy :
    (es : List Flags) (c : Client)
    → c.expired ≡ false
    → c.idle_waiting ≡ false
    → IsBusy c (events es c)
unfolding events
events-IsBusy [] c alive busy = record {
  alive = alive;
  busy = busy;
  kept = λ i e. e;
  same_output = refl;
}
events-IsBusy (flags ∷ es) c alive busy =
    let (b, _) = callback-IsBusy c flags alive busy in
    let b' = events-IsBusy es (callback flags c) b.alive b.busy in
    record {
      alive = b'.alive;
      busy = b'.busy;
      kept = λ i e. b'.kept i (b.kept i e);
      same_output = b'.same_output ∙ b.same_output;
    }

events-pending :
    (before after : List Flags) (flags : Flags) (c : Client) (i : ℕ)
    → c.expired ≡ false
    → c.idle_waiting ≡ false
    → flags i ≡ true
    → (events (before ++ (flags ∷ after)) c).idle_flags i ≡ true
unfolding events
events-pending [] after flags c i alive busy e =
    let (b, set) = callback-IsBusy c flags alive busy in
    (events-IsBusy after (callback flags c) b.alive b.busy).kept i (set i e)
events-pending (f ∷ before) after flags c i alive busy e =
    let (b, _) = callback-IsBusy c f alive busy in
    events-pending before after flags (callback f c) i b.alive b.busy e

-- An event that comes while a client that has not expired does not wait, among others, is told by the next
-- wait of the client if that wait subscribes it, and nothing is told before that.
pub events-IsTold :
    (before after : List Flags) (flags subscriptions : Flags) (c : Client) (i : ℕ)
    → c.expired ≡ false
    → c.idle_waiting ≡ false
    → i < length idle_names
    → flags i ≡ true
    → subscriptions i ≡ true
    → ((events (before ++ (flags ∷ after)) c).output ≡ c.output)
      × ((idle_wait (events (before ++ (flags ∷ after)) c) subscriptions).0 ≡ true)
      × IsTold
          (changed (name_of idle_names i))
          (idle_wait (events (before ++ (flags ∷ after)) c) subscriptions).1.output
unfolding idle_wait
events-IsTold before after flags subscriptions c i alive busy lt e s =
    let c1 = events (before ++ (flags ∷ after)) c in
    let c2 : Client = record c1 { idle_waiting = true; idle_subscriptions = subscriptions } in
    let pending = events-pending before after flags c i alive busy e in
    let some : is_set (both c2.idle_flags c2.idle_subscriptions) ≡ true =
      any_bit-true 32 (both c2.idle_flags c2.idle_subscriptions) i (omega arith)
        (ground (arith, pending, s)) in
    let is : idle_wait c1 subscriptions ≡ (true, notify c2) = if-true _ _ some in
    (
      (events-IsBusy (before ++ (flags ∷ after)) c alive busy).same_output,
      ap (λ r. r.0) is,
      subst (λ (r : Bool × Client). IsTold (changed (name_of idle_names i)) r.1.output) (sym is)
          (notify-IsTold c2 i lt pending s),
    )

-- A client that waits has no pending event that it subscribed.
pub record IsQuiet (c : Client) : Type 0 where
  pub quiet : c.idle_waiting ≡ true → is_set (both c.idle_flags c.idle_subscriptions) ≡ false

notify-IsQuiet : (c : Client) → IsQuiet (notify c)
unfolding notify
notify-IsQuiet c = record { quiet = λ w. absurd (ground (arith, w)) }

callback-IsQuiet : (c : Client) (flags : Flags) → IsQuiet c → IsQuiet (callback flags c)
unfolding callback
callback-IsQuiet c flags q = elim (Bool-cases c.expired) [
  | inl t ↦ subst IsQuiet (sym (if-true _ _ t)) q
  | inr n ↦
      let c' : Client = record c { idle_flags = either c.idle_flags flags } in
      subst IsQuiet (sym (if-false _ _ n))
        (elim (Bool-cases (c'.idle_waiting && is_set (both c'.idle_flags c'.idle_subscriptions))) [
          | inl t ↦ subst IsQuiet (sym (if-true _ _ t)) (notify-IsQuiet c')
          | inr n' ↦
              subst IsQuiet (sym (if-false _ _ n')) (record { quiet = λ w. ground (arith, w, n') })
        ])
]

wait-IsQuiet : (c : Client) (subscriptions : Flags) → IsQuiet (idle_wait c subscriptions).1
unfolding idle_wait
wait-IsQuiet c subscriptions =
    let c' : Client = record c { idle_waiting = true; idle_subscriptions = subscriptions } in
    elim (Bool-cases (is_set (both c'.idle_flags c'.idle_subscriptions))) [
      | inl t ↦ subst (λ (r : Bool × Client). IsQuiet r.1) (sym (if-true _ _ t)) (notify-IsQuiet c')
      | inr n ↦
          subst (λ (r : Bool × Client). IsQuiet r.1) (sym (if-false _ _ n))
            (record { quiet = λ w. n })
    ]

events-IsQuiet : (es : List Flags) (c : Client) → IsQuiet c → IsQuiet (events es c)
unfolding events
events-IsQuiet [] c q = q
events-IsQuiet (flags ∷ es) c q = events-IsQuiet es (callback flags c) (callback-IsQuiet c flags q)

-- No client waits while an event that it subscribed is pending: this holds after a wait begins, and a
-- sequence of events keeps it.
pub idle-IsQuiet :
    (c : Client) (subscriptions : Flags) (es : List Flags)
    → IsQuiet (events es (idle_wait c subscriptions).1)
idle-IsQuiet c subscriptions es = events-IsQuiet es _ (wait-IsQuiet c subscriptions)
