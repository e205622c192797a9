-- ===== src/Guard/Limit/Waits.antt =====
-- Every completion is answered by one more operation, or by the end of the handler.
use dist_storage.Prelude.{◌≡◌, refl, Bool, true, false, [], ◌∷◌, ◌++◌, ℕ, suc}
use mathlib.Core.List.{append_assoc}
use dist_storage.Stream.Router.{k_accepted, k_streaming}
use dist_storage.Guard.Limit.{
  k_read, k_write, k_finish, Act, bind, clone, read, write, finish, destroy, LimitHandler,
  ResourceRequestUnion, resource_request, v_not_set, bill_append, bill_overwrite, resource_finish,
  process, process_pending, handle_stream_connect, handle_read_completion, handle_write_completion,
  process_incoming_message, process_case, after_message,
}

-- The completion that the handler waits for.
pub data Waits {F : Type 0} (h : LimitHandler F) : Act → Type 0 where
  bound : h.stream_connect_phase ≡ k_accepted → Waits h bind
  reads : h.stream_connect_phase ≡ k_streaming → h.pending ≡ k_read → Waits h read
  writes : h.stream_connect_phase ≡ k_streaming → h.pending ≡ k_write → Waits h write
  finishes : h.stream_connect_phase ≡ k_streaming → h.pending ≡ k_finish → Waits h finish

-- What the handler `g` does about the completion of `op` to become `h`: it starts one operation, for
-- which it then waits, or it ends, which it does only when nothing is to be sent any more.
pub data Answers {F : Type 0} (g h : LimitHandler F) : Act → Bool → Type 0 where
  accepts : h.acts ≡ g.acts ++ clone ∷ read ∷ [] → Waits h read → Answers g h bind true
  refused : h.acts ≡ g.acts ++ destroy ∷ [] → Answers g h bind false
  acknowledges : h.acts ≡ g.acts ++ write ∷ [] → Waits h write → Answers g h read true
  reads_on : h.acts ≡ g.acts ++ read ∷ [] → Waits h read → Answers g h write true
  hangs_up :
      {running : Bool} → h.acts ≡ g.acts ++ finish ∷ [] → Waits h finish → Answers g h read running
  gives_up : h.acts ≡ g.acts ++ finish ∷ [] → Waits h finish → Answers g h write false
  ends : {running : Bool} → h.acts ≡ g.acts ++ destroy ∷ [] → Answers g h finish running

module _ {F : Type 0} (plus : F → F → F) (zero_value : F) where
  abbrev next : LimitHandler F → Bool → LimitHandler F
  next = process plus zero_value

  message_lem :
      (h : LimitHandler F) (m : ResourceRequestUnion F)
      → h.stream_connect_phase ≡ k_streaming
      → Answers h (after_message plus zero_value (process_case plus zero_value h m)) read true
  unfolding process_case after_message
  message_lem h (resource_request items) p = acknowledges refl (writes p refl)
  message_lem h v_not_set p = acknowledges refl (writes p refl)
  message_lem h (bill_append items) p = acknowledges refl (writes p refl)
  message_lem h (bill_overwrite items) p = acknowledges refl (writes p refl)
  message_lem h (resource_finish _) p = hangs_up refl (finishes p refl)

  -- A completion of the operation that a handler waits for is answered as the comment on
  -- GRPCHandler::process asks: the handler starts one more operation and waits for that, or it is
  -- destroyed, which happens only when its Finish has completed or its stream was refused. A message
  -- that is read is acknowledged, or ends the stream.
  pub process-Answers :
      (h : LimitHandler F) (op : Act) (running : Bool)
      → Waits h op
      → Answers h (process plus zero_value h running) op running
  unfolding process handle_stream_connect process_pending handle_read_completion
      handle_write_completion process_incoming_message
  process-Answers h op true (bound p) =
      rw p (accepts (append_assoc h.acts (clone ∷ []) (read ∷ [])) (reads refl refl))
  process-Answers h op false (bound p) = rw p (refused refl)
  process-Answers h op true (reads p q) = rw (p, q) (message_lem _ h.request refl)
  process-Answers h op false (reads p q) = rw (p, q) (hangs_up refl (finishes refl refl))
  process-Answers h op true (writes p q) = rw (p, q) (reads_on refl (reads refl refl))
  process-Answers h op false (writes p q) = rw (p, q) (gives_up refl (finishes refl refl))
  process-Answers h op running (finishes p q) = rw (p, q) (ends refl)

  -- The handler is destroyed by one of the next completions, at most `n`, if all of them fail.
  pub data EndsWithin : LimitHandler F → ℕ → Type 0 where
    now :
        {h : LimitHandler F} {n : ℕ}
        → (next h false).acts ≡ h.acts ++ destroy ∷ []
        → EndsWithin h (suc n)
    later : {h : LimitHandler F} {n : ℕ} → EndsWithin (next h false) n → EndsWithin h (suc n)

  finish-EndsWithin : (h : LimitHandler F) (n : ℕ) → Waits h finish → EndsWithin h (suc n)
  finish-EndsWithin h n w = last_step (process-Answers h finish false w)
    where
      last_step : Answers h (next h false) finish false → EndsWithin h (suc n)
      last_step (ends e) = now e

  -- A stream does not outlive its connection: if every completion fails from some point on, the
  -- handler, whatever operation it waits for, is destroyed by the second completion at the latest.
  pub process-EndsWithin : (h : LimitHandler F) (op : Act) → Waits h op → EndsWithin h 2
  process-EndsWithin h op w = answered op w (process-Answers h op false w)
    where
      answered : (op : Act) → Waits h op → Answers h (next h false) op false → EndsWithin h 2
      answered op w (refused e) = now e
      answered op w (hangs_up e f) = later (finish-EndsWithin (next h false) 0 f)
      answered op w (gives_up e f) = later (finish-EndsWithin (next h false) 0 f)
      answered op w (ends e) = now e
