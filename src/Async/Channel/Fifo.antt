-- ===== src/Async/Channel/Fifo.antt =====
-- A channel is a queue: what is delivered, then what it holds, is what was sent, in order.
use nope.Prelude.{
  ℕ, ◌≤◌, ◌≡◌, refl, true, false, List, [], ◌∷◌, ◌++◌, map, Option, none, some, ltb, if◌then◌else◌,
  length, arith, append_assoc, append-nil, map-append, ap, sym, ◌∙◌, ◌⊎◌, inl, inr, if_elim, subst,
  Bool-cases, splice, length-append, ltb→lt,
}
use nope.Async.Channel.{
  Event, delivered, ended, sent, refused, Putter, IteratorResult, value, done, Channel, create,
  close, send_to, send, refill, take_pending, take_from, take_immediate, settle, recv,
}

pub data Op (A : Type 0) : Type 0 where
  closes : Op A
  sends : ℕ → A → Op A
  receives : ℕ → Op A

module _ {A : Type 0} where
  pub step : Channel A → Op A → Channel A × List (Event A)
  step c closes = close c
  step c (sends i x) = send c i x
  step c (receives i) = recv c i

  -- What a channel still has to deliver: the buffer, then the values of the waiting senders.
  abbrev pub contents : Channel A → List A
  contents c = c.buf ++ map (λ p. p.v) c.putters

  abbrev pub values : List (Event A) → List A
  values [] = []
  values (delivered i x ∷ es) = x ∷ values es
  values (ended i ∷ es) = values es
  values (sent i ∷ es) = values es
  values (refused i ∷ es) = values es

  -- The value that an operation brings; a closed channel takes none.
  abbrev pub accepted : Channel A → Op A → List A
  accepted c closes = []
  accepted c (sends i x) = if c.closed then [] else x ∷ []
  accepted c (receives i) = []

  -- Receivers wait only on an empty open channel, senders only behind a full buffer.
  pub record IsValid (c : Channel A) : Type 0 where
    pub waits : (c.takers ≡ []) ⊎ (c.buf ≡ []) × (c.putters ≡ []) × (c.closed ≡ false)
    pub full : (c.putters ≡ []) ⊎ (length c.buf ≡ c.capacity)
    pub bounded : length c.buf ≤ c.capacity

  pub create-IsValid : (n : ℕ) → IsValid (create n)
  unfolding create
  create-IsValid n = record { waits = inl refl; full = inl refl; bounded = omega arith }

  send_to-IsValid :
      (c : Channel A) (i : ℕ) (x : A) (ts : List ℕ)
      → c.takers ≡ ts
      → IsValid c
      → IsValid (send_to c i x ts).0
  unfolding send_to
  send_to-IsValid c i x (t ∷ ts) e h = record {
    waits = ground arith;
    full = ground arith;
    bounded = h.bounded;
  }
  send_to-IsValid c i x [] e h = record {
    waits = ground arith;
    full = ground (arith, length-append c.buf (x ∷ []));
    bounded = ground (arith, length-append c.buf (x ∷ []));
  }

  refill-IsValid :
      (c : Channel A) (x : A) (rest : List A) (ps : List (Putter A)) (ts : List ℕ)
      → c.buf ≡ x ∷ rest
      → c.putters ≡ ps
      → c.takers ≡ ts
      → IsValid c
      → IsValid (refill c rest ps ts).0
  unfolding refill
  refill-IsValid c x rest [] ts b p t h = ground arith
  refill-IsValid c x rest (q ∷ ps) [] b p t h = ground (arith, length-append rest (q.v ∷ []))
  refill-IsValid c x rest (q ∷ ps) (u ∷ ts) b p t h = ground arith

  -- What `take_immediate` leaves, by what it answers.
  abbrev Answers : Channel A → Channel A × List (Event A) × Option (IteratorResult A) → Type 0
  Answers c (c', es, some (value x)) = IsValid c' × (contents c ≡ values es ++ x ∷ contents c')
  Answers c (c', es, some done) =
      IsValid c' × (contents c ≡ values es ++ contents c') × (c.closed ≡ true) × (contents c ≡ [])
  Answers c (c', es, none) =
      (c' ≡ c) × (es ≡ []) × (c.buf ≡ []) × (c.putters ≡ []) × (c.closed ≡ false)

  refill-contents :
      (c : Channel A) (x : A) (rest : List A) (ps : List (Putter A)) (ts : List ℕ)
      → c.buf ≡ x ∷ rest
      → c.putters ≡ ps
      → c.takers ≡ ts
      → IsValid c
      → contents c ≡ values (refill c rest ps ts).1 ++ x ∷ contents (refill c rest ps ts).0
  unfolding refill
  refill-contents c x rest [] ts b p t h = rw (b, p) refl
  refill-contents c x rest (q ∷ ps) [] b p t h =
      rw (b, p) (ap (◌∷◌ x) (sym (append_assoc rest (q.v ∷ []) (map (λ p. p.v) ps))))
  refill-contents c x rest (q ∷ ps) (u ∷ ts) b p t h = absurd (ground arith)

  take_pending-Answers :
      (c : Channel A) (ps : List (Putter A))
      → c.buf ≡ []
      → c.putters ≡ ps
      → IsValid c
      → Answers c (take_pending c ps)
  unfolding take_pending
  take_pending-Answers c [] b p h =
      if_elim (λ r. Answers c (c, [], r)) c.closed (λ e. (h, refl, e, rw (b, p) refl))
        (λ e. (refl, refl, b, p, e))
  take_pending-Answers c (q ∷ ps) b p h = (ground arith, rw (b, p) refl)

  take_from-Answers :
      (c : Channel A) (b : List A) → c.buf ≡ b → IsValid c → Answers c (take_from c b)
  unfolding take_from
  take_from-Answers c (x ∷ rest) e h = (
    refill-IsValid c x rest c.putters c.takers e refl refl h,
    refill-contents c x rest c.putters c.takers e refl refl h,
  )
  take_from-Answers c [] e h = take_pending-Answers c c.putters e refl h

  -- What one operation keeps: the invariant, and that the values held before and the one that comes
  -- are those delivered, in order, followed by those held after.
  abbrev pub Keeps : Channel A → List A → Channel A × List (Event A) → Type 0
  Keeps c new (c', es) = IsValid c' × (contents c ++ new ≡ values es ++ contents c')

  values-append : (es fs : List (Event A)) → values (es ++ fs) ≡ values es ++ values fs
  values-append [] fs = refl
  values-append (delivered i x ∷ es) fs = ap (◌∷◌ x) (values-append es fs)
  values-append (ended i ∷ es) fs = values-append es fs
  values-append (sent i ∷ es) fs = values-append es fs
  values-append (refused i ∷ es) fs = values-append es fs

  settle-Keeps :
      (c : Channel A) (i : ℕ) (r : Channel A × List (Event A) × Option (IteratorResult A))
      → IsValid c
      → Answers c r
      → Keeps c [] (settle i r)
  unfolding settle
  settle-Keeps c i (c', es, some (value x)) h a =
      (a.0, simp (append-nil, values-append, append_assoc) a.1)
  settle-Keeps c i (c', es, some done) h a = (a.0, simp (append-nil, values-append) a.1)
  settle-Keeps c i (c', es, none) h a =
      subst (λ d. Keeps c [] (record d { takers = d.takers ++ i ∷ [] }, es)) (sym a.0)
        (
          record { waits = inr (a.2, a.3, a.4); full = h.full; bounded = h.bounded },
          rw (a.1, append-nil) refl,
        )

  recv-Keeps : (c : Channel A) (i : ℕ) → IsValid c → Keeps c [] (recv c i)
  unfolding recv
  recv-Keeps c i h = settle-Keeps c i (take_immediate c) h (take_from-Answers c c.buf refl h)

  room_fifo :
      (c : Channel A) (x : A)
      → ltb (length c.buf) c.capacity ≡ true
      → IsValid c
      → contents c ++ x ∷ [] ≡ contents (record c { buf = c.buf ++ x ∷ [] })
  room_fifo c x room h = elim h.full [
    | inl p ↦ rw p (simp append-nil)
    | inr f ↦ absurd (omega (arith, ltb→lt (length c.buf) c.capacity room))
  ]

  send_to-Keeps :
      (c : Channel A) (i : ℕ) (x : A) (ts : List ℕ)
      → c.takers ≡ ts
      → IsValid c
      → Keeps c (x ∷ []) (send_to c i x ts)
  unfolding send_to
  send_to-Keeps c i x (t ∷ ts) e h = (
    send_to-IsValid c i x (t ∷ ts) e h,
    elim h.waits [ inl none_wait ↦ absurd (ground arith) | inr (b, p, _) ↦ rw (b, p) refl ],
  )
  send_to-Keeps c i x [] e h = (
    send_to-IsValid c i x [] e h,
    if_elim (λ (r : Channel A × List (Event A)). contents c ++ x ∷ [] ≡ values r.1 ++ contents r.0)
        (ltb (length c.buf) c.capacity) (λ room. room_fifo c x room h)
        (λ busy. simp (map-append, append_assoc)),
  )

  values-ended : (ts : List ℕ) → values (map ended ts) ≡ []
  values-ended [] = refl
  values-ended (t ∷ ts) = values-ended ts

  close-Keeps : (c : Channel A) → IsValid c → Keeps c [] (close c)
  unfolding close
  close-Keeps c h =
      if_elim (Keeps c []) c.closed (λ e. (h, append-nil (contents c)))
        (λ e. (
          record { waits = inl refl; full = h.full; bounded = h.bounded },
          append-nil (contents c) ∙ ap (λ vs. vs ++ contents c) (sym (values-ended c.takers)),
        ))

  pub step-Keeps : (c : Channel A) (o : Op A) → IsValid c → Keeps c (accepted c o) (step c o)
  unfolding step send
  step-Keeps c closes h = close-Keeps c h
  step-Keeps c (receives i) h = recv-Keeps c i h
  step-Keeps c (sends i x) h = elim (Bool-cases c.closed) [
    | inl e ↦ simp e (h, append-nil (contents c))
    | inr e ↦ simp e (send_to-Keeps c i x c.takers refl h)
  ]

  -- A history: the channel that it leaves, and all events in order.
  pub run : Channel A → List (Op A) → Channel A × List (Event A)
  run c [] = (c, [])
  run c (o ∷ os) = let (c', es) = step c o in let (c'', fs) = run c' os in (c'', es ++ fs)

  -- The values that the sends of a history bring, those refused left out.
  pub all_accepted : Channel A → List (Op A) → List A
  all_accepted c [] = []
  all_accepted c (o ∷ os) = accepted c o ++ all_accepted (step c o).0 os

  -- Whatever is sent, received and closed, in whatever order: the values delivered to receivers, in
  -- the order of delivery, followed by those that the buffer and the waiting senders still hold, are
  -- the values held at first followed by those accepted, in the order of sending. And the invariant
  -- lasts: receivers wait only on an empty open channel, senders only behind a full buffer.
  pub run-Keeps :
      (c : Channel A) (os : List (Op A)) → IsValid c → Keeps c (all_accepted c os) (run c os)
  unfolding run all_accepted
  run-Keeps c [] h = (h, append-nil (contents c))
  run-Keeps c (o ∷ os) h =
      let (h', e) = step-Keeps c o h in
      let (h'', e') = run-Keeps (step c o).0 os h' in
      (
        h'',
        splice (contents c) (accepted c o) (values (step c o).1) (contents (step c o).0)
              (all_accepted (step c o).0 os) (values (run (step c o).0 os).1)
              (contents (run (step c o).0 os).0) e e'
            ∙ ap (λ vs. vs ++ contents (run (step c o).0 os).0)
                (sym (values-append (step c o).1 (run (step c o).0 os).1)),
      )

  -- What a receiver gets, by what the channel holds.
  abbrev pub Serves : Channel A → ℕ → List A → Type 0
  Serves c i [] =
      recv c i
      ≡ (if c.closed then (c, ended i ∷ []) else (record c { takers = c.takers ++ i ∷ [] }, []))
  Serves c i (x ∷ rest) =
      (es : List (Event A)) × ((recv c i).1 ≡ es ++ delivered i x ∷ [])
      × (contents (recv c i).0 ≡ rest)

  serve_from :
      (c : Channel A) (i : ℕ) (b : List A) (ps : List (Putter A))
      → c.buf ≡ b
      → c.putters ≡ ps
      → IsValid c
      → Serves c i (b ++ map (λ p. p.v) ps)
  unfolding recv
  serve_from c i (x ∷ rest) [] b p h = ([], ground arith, ground arith)
  serve_from c i (x ∷ rest) (q ∷ ps) b p h = (
    sent q.id ∷ [],
    ground arith,
    ground (arith, append_assoc rest (q.v ∷ []) (map (λ p. p.v) ps)),
  )
  serve_from c i [] [] b p h = ground arith
  serve_from c i [] (q ∷ ps) b p h = (sent q.id ∷ [], ground arith, rw (b, p) refl)

  -- A receiver gets the oldest value that the channel holds, and the rest stays; on an empty channel
  -- it is told that the channel is done if that is closed, and waits behind the other receivers if
  -- it is open.
  pub recv-Serves : (c : Channel A) (i : ℕ) → IsValid c → Serves c i (contents c)
  recv-Serves c i h = serve_from c i c.buf c.putters refl refl h
