-- ===== src/Stream/Handler/Outbound.antt =====
-- The outbound queue of a stream handler: messages are written once, in the order of arrival.
use dist_storage.Prelude.{
  ◌≡◌, refl, sym, ap, ◌∙◌, true, false, List, [], ◌∷◌, ◌++◌, Result, ok, undefined, ◌>>=◌, ◌⊎◌, inl,
  inr, arith, ok-injective,
}
use mathlib.Core.Path.{subst}
use mathlib.Core.List.{append-nil, append_assoc}
use dist_storage.Peer.Store.{SignedMessage}
use dist_storage.Stream.Router.{Handler, Call, bind, read, write, finish, enqueue_outgoing}
use dist_storage.Stream.Handler.{handle_write_completion, pop_and_write, write_next, stop_writing}

-- What happens to the queue: a message arrives, or a write has succeeded.
pub data Traffic : Type 0 where
  arrives : SignedMessage → Traffic
  written : Traffic

unfoldable pub run_traffic : Handler → List Traffic → Result Handler
run_traffic h [] = ok h
run_traffic h (arrives msg ∷ ts) = run_traffic (enqueue_outgoing h msg) ts
run_traffic h (written ∷ ts) = do h' ← handle_write_completion h true; run_traffic h' ts

abbrev pub arrivals : List Traffic → List SignedMessage
arrivals [] = []
arrivals (arrives msg ∷ ts) = msg ∷ arrivals ts
arrivals (written ∷ ts) = arrivals ts

-- The messages handed to gRPC, oldest first.
abbrev pub writes : List Call → List SignedMessage
writes [] = []
writes (write m ∷ cs) = m ∷ writes cs
writes (bind ∷ cs) = writes cs
writes (read ∷ cs) = writes cs
writes (finish st ∷ cs) = writes cs

-- No write is out and nothing waits.
pub record Idle (h : Handler) : Type 0 where
  pub no_write : h.write_pending ≡ false
  pub nothing : h.outbound ≡ []
  pub open_ : h.closing_after_writes ≡ false

-- The write of `m` is out, and `ms` wait behind it.
pub record Busy (h : Handler) (m : SignedMessage) (ms : List SignedMessage) : Type 0 where
  pub out : h.write_pending ≡ true
  pub queue : h.outbound ≡ m ∷ ms
  pub current : h.response ≡ m
  pub open_ : h.closing_after_writes ≡ false

-- `ws` are the messages that wait for their write.
abbrev pub Waits : Handler → List SignedMessage → Type 0
Waits h ws = (Idle h × (ws ≡ [])) ⊎ ((m : SignedMessage) × Busy h m ws)

enqueue-Idle :
    (h : Handler) (msg : SignedMessage)
    → Idle h
    → Busy (enqueue_outgoing h msg) msg []
      × ((enqueue_outgoing h msg).calls ≡ h.calls ++ write msg ∷ [])
unfolding enqueue_outgoing
enqueue-Idle h msg i = (
  record { out = ground arith; queue = ground arith; current = ground arith; open_ = ground arith },
  ground arith,
)

enqueue-Busy :
    (h : Handler) (msg m : SignedMessage) (ms : List SignedMessage)
    → Busy h m ms
    → Busy (enqueue_outgoing h msg) m (ms ++ msg ∷ []) × ((enqueue_outgoing h msg).calls ≡ h.calls)
unfolding enqueue_outgoing
enqueue-Busy h msg m ms b = (
  record { out = ground arith; queue = ground arith; current = ground arith; open_ = ground arith },
  ground arith,
)

complete_last :
    (h : Handler) (m : SignedMessage)
    → Busy h m []
    → (h' : Handler) × (handle_write_completion h true ≡ ok h') × Idle h' × (h'.calls ≡ h.calls)
unfolding handle_write_completion pop_and_write write_next stop_writing
complete_last h m b = (
  record h { outbound = []; write_pending = false; closing_after_writes = false },
  rw (b.queue, b.open_),
  record { no_write = refl; nothing = refl; open_ = refl },
  refl,
)

complete_more :
    (h : Handler) (m m' : SignedMessage) (ms : List SignedMessage)
    → Busy h m (m' ∷ ms)
    → (h' : Handler) × (handle_write_completion h true ≡ ok h')
      × Busy h' m' ms
      × (h'.calls ≡ h.calls ++ write m' ∷ [])
unfolding handle_write_completion pop_and_write write_next
complete_more h m m' ms b = (
  write_next h (m' ∷ ms),
  rw b.queue,
  record { out = b.out; queue = refl; current = refl; open_ = b.open_ },
  refl,
)

pub writes-append : (cs ds : List Call) → writes (cs ++ ds) ≡ writes cs ++ writes ds
writes-append [] ds = refl
writes-append (write m ∷ cs) ds = ap (◌∷◌ m) (writes-append cs ds)
writes-append (bind ∷ cs) ds = writes-append cs ds
writes-append (read ∷ cs) ds = writes-append cs ds
writes-append (finish st ∷ cs) ds = writes-append cs ds

-- One step of traffic, and what it adds to the messages passed on or waiting.
record Moved (h : Handler) (ws : List SignedMessage) (ms : List SignedMessage) (h' : Handler)
    : Type 0 where
  ws' : List SignedMessage
  waits : Waits h' ws'
  grown : writes h'.calls ++ ws' ≡ (writes h.calls ++ ws) ++ ms

arrive_lem :
    (h : Handler) (msg : SignedMessage) (ws : List SignedMessage)
    → Waits h ws
    → Moved h ws (msg ∷ []) (enqueue_outgoing h msg)
arrive_lem h msg ws (inl (i, e)) =
    let (b, calls) = enqueue-Idle h msg i in
    record {
      ws' = [];
      waits = inr (msg, b);
      grown = simp (calls, e, writes-append h.calls (write msg ∷ []), append-nil);
    }
arrive_lem h msg ws (inr (m, b)) =
    let (b', calls) = enqueue-Busy h msg m ws b in
    record {
      ws' = ws ++ msg ∷ [];
      waits = inr (m, b');
      grown = rw calls (sym (append_assoc (writes h.calls) ws (msg ∷ [])));
    }

written_lem :
    (h : Handler) (m : SignedMessage) (ws : List SignedMessage)
    → Busy h m ws
    → (h' : Handler) × (handle_write_completion h true ≡ ok h') × Moved h ws [] h'
written_lem h m [] b =
    let (h', done, i, calls) = complete_last h m b in
    (
      h',
      done,
      record {
        ws' = [];
        waits = inl (i, refl);
        grown = rw calls (sym (append-nil (writes h.calls ++ [])));
      },
    )
written_lem h m (m' ∷ ws) b =
    let (h', done, b', calls) = complete_more h m m' ws b in
    (
      h',
      done,
      record {
        ws' = ws;
        waits = inr (m', b');
        grown = rw (
          calls,
          writes-append h.calls (write m' ∷ []),
          append_assoc (writes h.calls) (m' ∷ []) ws,
          append-nil (writes h.calls ++ m' ∷ ws),
        );
      },
    )

-- A completed write in an idle handler finds an empty queue.
written-Idle : (h : Handler) → Idle h → handle_write_completion h true ≡ undefined
unfolding handle_write_completion pop_and_write
written-Idle h i = rw i.nothing

run_lem :
    (ts : List Traffic) (h h' : Handler) (ws : List SignedMessage)
    → Waits h ws
    → run_traffic h ts ≡ ok h'
    → Moved h ws (arrivals ts) h'
unfolding run_traffic
run_lem [] h h' ws w e =
    subst (Moved h ws []) (ok-injective e)
      (record { ws' = ws; waits = w; grown = sym (append-nil (writes h.calls ++ ws)) })
run_lem (arrives msg ∷ ts) h h' ws w e =
    let a = arrive_lem h msg ws w in
    let r = run_lem ts (enqueue_outgoing h msg) h' a.ws' a.waits e in
    record {
      ws' = r.ws';
      waits = r.waits;
      grown =
          r.grown
          ∙ ap (λ l. l ++ arrivals ts) a.grown
          ∙ append_assoc (writes h.calls ++ ws) (msg ∷ []) (arrivals ts);
    }
run_lem (written ∷ ts) h h' ws (inl (i, _)) e = absurd (ground (arith, written-Idle h i))
run_lem (written ∷ ts) h h' ws (inr (m, b)) e =
    let (h1, done, a) = written_lem h m ws b in
    let r = run_lem ts h1 h' a.ws' a.waits (rw done at e) in
    record {
      ws' = r.ws';
      waits = r.waits;
      grown = r.grown ∙ ap (λ l. l ++ arrivals ts) (a.grown ∙ append-nil (writes h.calls ++ ws));
    }

-- From an idle handler, while messages arrive and writes succeed in any order in which no write
-- succeeds that is not out: the messages handed to gRPC since the start, followed by those that
-- wait, are the messages that arrived, each once and in the order of arrival.
pub run_traffic-fifo :
    (h h' : Handler) (ts : List Traffic)
    → Idle h
    → run_traffic h ts ≡ ok h'
    → (ws : List SignedMessage) × Waits h' ws
      × (writes h'.calls ++ ws ≡ writes h.calls ++ arrivals ts)
run_traffic-fifo h h' ts i e =
    let r = run_lem ts h h' [] (inl (i, refl)) e in
    (r.ws', r.waits, r.grown ∙ ap (λ l. l ++ arrivals ts) (append-nil (writes h.calls)))

-- A write never succeeds in vain: while a message is being written, its completion is handled
-- without undefined behaviour, and the next message that waits, if any, is written at once.
handle_write_completion-Busy :
    (h : Handler) (m : SignedMessage) (ws : List SignedMessage)
    → Busy h m ws
    → (h' : Handler) × (ws' : List SignedMessage) × (handle_write_completion h true ≡ ok h')
      × Waits h' ws'
      × (writes h'.calls ++ ws' ≡ writes h.calls ++ ws)
handle_write_completion-Busy h m ws b =
    let (h', done, a) = written_lem h m ws b in
    (h', a.ws', done, a.waits, a.grown ∙ append-nil (writes h.calls ++ ws))
