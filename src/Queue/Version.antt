-- ===== src/Queue/Version.antt =====
-- src/queue.c: the version number, by which a client asks for the songs that changed.
use mpd.Base.{
  ap, ◌∙◌, ℕ, ◌+◌, ◌<◌, ◌≡◌, ◌≢◌, refl, true, false, ltb, leb, if◌then◌else◌, for_up, for_up_inv,
  arith, add_uint,
}
use mpd.Queue.{
  Queue, increment_version, modify, modify_all, set_item_version, song_newer, version_max, get,
}
use mpd.Queue.Inv.{IsValid}

-- Only versions differ.
pub record Versioned (q q' : Queue) : Type 0 where
  pub rest : q' ≡ record q { items = q'.items; version = q'.version }
  pub song_at : (p : ℕ) → get q' p ≡ get q p
  pub id_at : (p : ℕ) → (q'.items p).id ≡ (q.items p).id

-- Changing versions, but not to an impossible one, keeps a valid queue valid.
pub Versioned-IsValid :
    {q q' : Queue}
    → Versioned q q'
    → 0 < q'.version
    → q'.version < version_max
    → IsValid q
    → IsValid q'
Versioned-IsValid r pos lt v = record {
  fits = ground (arith, r.rest, v.fits);
  small = ground (arith, r.rest, v.small);
  version_lt = lt;
  version_pos = pos;
  has_ids = record {
    in_range = λ p l. ground (arith, r.rest, r.id_at p, v.in_range p);
    id_at = λ p l. ground (arith, r.rest, r.id_at p, v.id_at p);
    position_lt = λ i p e. ground (arith, r.rest, v.position_lt i p);
    id_of = λ i p e. ground (arith, r.rest, r.id_at p, v.id_of i p);
  };
  has_order = record {
    permutes = record {
      below = λ o l. ground (arith, r.rest, v.permutes.below o);
      injective = λ i j li lj e. ground (arith, r.rest, v.permutes.injective i j);
    };
    in_place = λ m o l. ground (arith, r.rest, v.in_place (ground (arith, r.rest)) o);
  };
}

-- The loops that give every song one version.
record AllSet (x : ℕ) (q : Queue) (stop : ℕ) (q' : Queue) : Type 0 where
  rest : q' ≡ record q { items = q'.items }
  item_at :
      (p : ℕ) → q'.items p ≡ (if ltb p stop then record (q.items p) { version = x } else q.items p)

all_set : (x : ℕ) (q : Queue) → AllSet x q q.length (for_up q.length 0 (set_item_version x) q)
all_set x q =
    for_up_inv (AllSet x q) (set_item_version x) q.length
      (λ i s lt m. record {
        rest = ground (arith, m.rest);
        item_at = λ p. ground (arith, m.item_at p);
      })
      q.length 0 q (omega arith) (record { rest = refl; item_at = λ p. ground arith })

-- What `queue_increment_version` has done.
pub record Incremented (q q' : Queue) : Type 0 where
  pub versioned : Versioned q q'
  pub pos : 0 < q'.version
  pub lt : q'.version < version_max
  -- the counter goes up, or every song counts as changed
  pub step :
      (p : ℕ)
      → p < q.length
      → (if leb version_max (q.version + 1)
          then (q'.items p).version ≡ 0
          else q'.items p ≡ q.items p)
  pub next : q'.version ≡ (if leb version_max (q.version + 1) then 1 else q.version + 1)

pub increment_version-Incremented :
    (q : Queue) → q.version < version_max → Incremented q (increment_version q)
unfolding increment_version get
increment_version-Incremented q lt =
    let q1 : Queue = record q { version = add_uint q.version 1 } in
    let m : AllSet 0 q1 q1.length (for_up q1.length 0 (set_item_version 0) q1) = all_set 0 q1 in
    record {
      versioned = record {
        rest = ground (arith, m.rest);
        song_at = λ p. ground (arith, m.item_at p);
        id_at = λ p. ground (arith, m.item_at p);
      };
      pos = ground arith;
      lt = ground arith;
      step = λ p l. ground (arith, m.item_at p);
      next = ground arith;
    }

-- `queue_increment_version` keeps a valid queue valid: the version stays below its limit and above 0.
pub increment_version-IsValid : {q : Queue} → IsValid q → IsValid (increment_version q)
increment_version-IsValid {q} v =
    let m = increment_version-Incremented q v.version_lt in
    Versioned-IsValid m.versioned m.pos m.lt v

-- A client that has seen version `q.version` is told of the song at `p` in the later queue `q'`.
abbrev pub IsTold : Queue → Queue → ℕ → Type 0
IsTold q q' p = song_newer q' p q.version ≡ true

module _ {q : Queue} (v : IsValid q) (order : ℕ) (lo : order < q.length) where
  -- `queue_modify` keeps a valid queue valid, moves no song, tells a client that has seen the version
  -- before of the changed song, and, unless the counter starts again, tells it of no other song that
  -- was last changed before that version (and not at the restart of the counter).
  pub modify_lem :
      IsValid (modify q order)
      × ((p : ℕ) → get (modify q order) p ≡ get q p)
      × IsTold q (modify q order) (q.order order)
      × (q.version + 1 < version_max
          → (p : ℕ) → p < q.length
          → p ≢ q.order order
          → 0 < (q.items p).version
          → (q.items p).version < q.version
          → song_newer (modify q order) p q.version ≡ false)
  unfolding modify song_newer get
  modify_lem = (valid, (λ p. ground (arith, m.versioned.song_at p)), told, other)
    where
      q1 : Queue
      q1 = set_item_version q.version (q.order order) q

      m : Incremented q1 (increment_version q1)
      m = increment_version-Incremented q1 v.version_lt

      valid : IsValid (increment_version q1)
      valid = increment_version-IsValid (
          Versioned-IsValid
            (record { rest = refl; song_at = λ p. ground arith; id_at = λ p. ground arith })
            v.version_pos v.version_lt v)

      told : song_newer (increment_version q1) (q.order order) q.version ≡ true
      told = ground (arith, m.step (q.order order) (v.permutes.below order lo), m.next)

      other :
          q.version + 1 < version_max
          → (p : ℕ) → p < q.length
          → p ≢ q.order order
          → 0 < (q.items p).version
          → (q.items p).version < q.version
          → song_newer (increment_version q1) p q.version ≡ false
      other room p lp ne pos lt = ground (arith, m.step p lp, m.next)

-- `queue_modify_all` keeps a valid queue valid and tells a client that has seen the version before of
-- every song.
pub modify_all_lem :
    {q : Queue}
    → IsValid q
    → IsValid (modify_all q)
      × ((p : ℕ) → get (modify_all q) p ≡ get q p)
      × ((p : ℕ) → p < q.length → IsTold q (modify_all q) p)
unfolding modify_all song_newer get
modify_all_lem {q} v = (
  increment_version-IsValid (
      Versioned-IsValid
        (record {
          rest = ground (arith, a.rest);
          song_at = λ p. ground (arith, a.item_at p);
          id_at = λ p. ground (arith, a.item_at p);
        })
        (ground (arith, a.rest, v.version_pos)) (ground (arith, a.rest, v.version_lt)) v),
  (λ p. ground (arith, m.versioned.song_at p, a.item_at p)),
  (λ p lt. ground (arith, a.rest, m.step p, m.next, a.item_at p)),
)
  where
    q1 : Queue
    q1 = for_up q.length 0 (set_item_version q.version) q

    a : AllSet q.version q q.length q1
    a = all_set q.version q

    m : Incremented q1 (increment_version q1)
    m = increment_version-Incremented q1 (ground (arith, a.rest, v.version_lt))

pub length-modify :
    (q : Queue) (order : ℕ) → q.version < version_max → (modify q order).length ≡ q.length
unfolding modify
length-modify q order lt =
    ap (λ (t : Queue). t.length)
      (increment_version-Incremented (set_item_version q.version (q.order order) q)
        lt).versioned.rest

pub length-modify_all : (q : Queue) → q.version < version_max → (modify_all q).length ≡ q.length
unfolding modify_all
length-modify_all q lt =
    let m : AllSet q.version q q.length (for_up q.length 0 (set_item_version q.version) q) =
      all_set q.version q in
    ap (λ (t : Queue). t.length)
      (increment_version-Incremented (for_up q.length 0 (set_item_version q.version) q)
        (ground (arith, m.rest))).versioned.rest
    ∙ ap (λ (t : Queue). t.length) m.rest
