-- ===== src/Guard/Limit/Bills.antt =====
-- The bill that a task's messages add up to.
use dist_storage.Prelude.{
  ◌≡◌, refl, sym, ap, ◌∙◌, true, Option, none, some, List, [], ◌∷◌, All, Bytes, Bytes-discrete,
  bytes_less, ite,
}
use mathlib.Core.Path.{subst}
use dist_storage.Prelude.Maps.{lookup, insert_or_assign, lookup-insert_or_assign}
use dist_storage.Stream.Router.{k_initial, k_accepted, k_streaming}
use dist_storage.Guard.Limit.{
  PendingOp, k_read, k_write, LimitHandler, ResourceRequestUnion, resource_request, v_not_set,
  bill_append, bill_overwrite, resource_finish, process, process_pending, handle_read_completion,
  handle_write_completion, process_incoming_message, process_case, after_message,
  handle_stream_connect, reading, or_zero, append_items, overwrite_items,
}

module _ {F : Type 0} where
  -- The amounts that a message has for a name, in their order.
  abbrev pub amounts : Bytes → List (Bytes × F) → List F
  amounts name [] = []
  amounts name ((key, v) ∷ items) =
      ite (Bytes-discrete key name) (v ∷ amounts name items) (amounts name items)

  -- The last amount, if there is one.
  abbrev pub last_or : Option F → List F → Option F
  last_or o [] = o
  last_or o (v ∷ vs) = last_or (some v) vs

  overwrite_items-lookup :
      (name : Bytes) (items bill : List (Bytes × F))
      → lookup Bytes-discrete name (overwrite_items items bill)
        ≡ last_or (lookup Bytes-discrete name bill) (amounts name items)
  unfolding overwrite_items
  overwrite_items-lookup name [] bill = refl
  overwrite_items-lookup name ((key, v) ∷ items) bill =
      overwrite_items-lookup name items (insert_or_assign Bytes-discrete bytes_less key v bill)
      ∙ ap (λ o. last_or o (amounts name items))
          (lookup-insert_or_assign Bytes-discrete bytes_less key name v bill)
      ∙ split (Bytes-discrete key name)
    where
      split :
          (d : Dec (key ≡ name))
          → last_or (ite d (some v) (lookup Bytes-discrete name bill)) (amounts name items)
            ≡ last_or
                (lookup Bytes-discrete name bill)
                (ite d (v ∷ amounts name items) (amounts name items))
      split (yes e) = refl
      split (no ne) = refl

  module _ (plus : F → F → F) (zero_value : F) where
    -- Amounts on top of one that may be missing, which counts as zero.
    abbrev pub charged : Option F → List F → Option F
    charged o [] = o
    charged o (v ∷ vs) = charged (some (plus (or_zero plus zero_value o) v)) vs

    append_items-lookup :
        (name : Bytes) (items bill : List (Bytes × F))
        → lookup Bytes-discrete name (append_items plus zero_value items bill)
          ≡ charged (lookup Bytes-discrete name bill) (amounts name items)
    unfolding append_items
    append_items-lookup name [] bill = refl
    append_items-lookup name ((key, v) ∷ items) bill =
        append_items-lookup name items _
        ∙ ap (λ o. charged o (amounts name items))
            (lookup-insert_or_assign Bytes-discrete bytes_less key name _ bill)
        ∙ split (Bytes-discrete key name)
      where
        split :
            (d : Dec (key ≡ name))
            → charged
                (ite d
                  (some (plus (or_zero plus zero_value (lookup Bytes-discrete key bill)) v))
                  (lookup Bytes-discrete name bill))
                (amounts name items)
              ≡ charged
                  (lookup Bytes-discrete name bill)
                  (ite d (v ∷ amounts name items) (amounts name items))
        split (yes e) = rw e refl
        split (no ne) = refl

    -- The amount of a name after a message, by what it was before.
    abbrev pub billed : Bytes → ResourceRequestUnion F → Option F → Option F
    billed name (bill_append items) o = charged o (amounts name items)
    billed name (bill_overwrite items) o = last_or none (amounts name items)
    billed name _ o = o

    abbrev pub billed_all : Bytes → List (ResourceRequestUnion F) → Option F → Option F
    billed_all name [] o = o
    billed_all name (m ∷ ms) o = billed_all name ms (billed name m o)

    -- A message is read, and its acknowledgement is written.
    abbrev pub exchange : LimitHandler F → ResourceRequestUnion F → LimitHandler F
    exchange h m =
        process plus zero_value (process plus zero_value (record h { request = m }) true) true

    abbrev pub exchange_all : LimitHandler F → List (ResourceRequestUnion F) → LimitHandler F
    exchange_all h [] = h
    exchange_all h (m ∷ ms) = exchange_all (exchange h m) ms

    -- Any message but ResourceFinish.
    abbrev pub GoesOn : ResourceRequestUnion F → Type 0
    GoesOn (resource_finish _) = ⊥
    GoesOn _ = Unit

    process_streaming :
        (h : LimitHandler F) (op : PendingOp)
        → h.stream_connect_phase ≡ k_streaming
        → h.pending ≡ op
        → process plus zero_value h true ≡ process_pending plus zero_value h true op
    unfolding process
    process_streaming h op p q =
        ap
          (λ phase. elim phase [
            | k_streaming ↦ process_pending plus zero_value h true h.pending
            | k_initial ↦ handle_stream_connect h true
            | k_accepted ↦ handle_stream_connect h true
          ])
          p
        ∙ ap (process_pending plus zero_value h true) q

    read_step :
        (h : LimitHandler F) (m : ResourceRequestUnion F)
        → h.stream_connect_phase ≡ k_streaming
        → h.pending ≡ k_read
        → process plus zero_value (record h { request = m }) true
          ≡ after_message plus zero_value
              (process_case plus zero_value (record h { request = m }) m)
    unfolding process_pending handle_read_completion process_incoming_message
    read_step h m p q = process_streaming (record h { request = m }) k_read p q

    write_step :
        (h : LimitHandler F)
        → h.stream_connect_phase ≡ k_streaming
        → h.pending ≡ k_write
        → process plus zero_value h true ≡ reading h
    unfolding process_pending handle_write_completion
    write_step h p q = process_streaming h k_write p q

    -- What one exchange leaves: the handler reads again, with the bill of the message.
    record Exchanged (h : LimitHandler F) (m : ResourceRequestUnion F) (g : LimitHandler F)
        : Type 0 where
      streaming : g.stream_connect_phase ≡ k_streaming
      open_ : g.pending ≡ k_read
      bill :
          (name : Bytes)
          → lookup Bytes-discrete name g.res_request
            ≡ billed name m (lookup Bytes-discrete name h.res_request)

    through :
        (h g : LimitHandler F) (m : ResourceRequestUnion F)
        → process plus zero_value (record h { request = m }) true ≡ g
        → g.stream_connect_phase ≡ k_streaming
        → g.pending ≡ k_write
        → Exchanged h m (reading g)
        → Exchanged h m (exchange h m)
    through h g m e p q x =
        subst (Exchanged h m) (sym (ap (λ k. process plus zero_value k true) e ∙ write_step g p q))
          x

    exchange_lem :
        (h : LimitHandler F) (m : ResourceRequestUnion F)
        → h.stream_connect_phase ≡ k_streaming
        → h.pending ≡ k_read
        → GoesOn m
        → Exchanged h m (exchange h m)
    unfolding process_case after_message lookup
    exchange_lem h (resource_request items) p q g =
        through h _ _ (read_step h _ p q) p refl
          (record { streaming = p; open_ = refl; bill = λ name. refl })
    exchange_lem h v_not_set p q g =
        through h _ _ (read_step h _ p q) p refl
          (record { streaming = p; open_ = refl; bill = λ name. refl })
    exchange_lem h (bill_append items) p q g = through h _ _ (read_step h _ p q) p refl (record {
      streaming = p;
      open_ = refl;
      bill = λ name. append_items-lookup name items h.res_request;
    })
    exchange_lem h (bill_overwrite items) p q g = through h _ _ (read_step h _ p q) p refl (record {
      streaming = p;
      open_ = refl;
      bill = λ name. overwrite_items-lookup name items [];
    })
    exchange_lem h (resource_finish _) p q g = elim g [ ]

    -- While a stream exchanges messages other than ResourceFinish, the bill that the handler keeps is,
    -- for each name, the one that its BillAppend and BillOverwrite messages describe: an append adds its
    -- amounts to what is there, or to zero, and an overwrite replaces the whole bill. A ResourceRequest
    -- leaves the bill as it is, whatever bill items it brings. After them the handler reads again.
    pub exchange_all-billed_all :
        (h : LimitHandler F) (ms : List (ResourceRequestUnion F)) (name : Bytes)
        → h.stream_connect_phase ≡ k_streaming
        → h.pending ≡ k_read
        → All GoesOn ms
        → (lookup Bytes-discrete name (exchange_all h ms).res_request
            ≡ billed_all name ms (lookup Bytes-discrete name h.res_request))
          × ((exchange_all h ms).pending ≡ k_read)
    exchange_all-billed_all h [] name p q all = (refl, q)
    exchange_all-billed_all h (m ∷ ms) name p q (g, all) =
        let x = exchange_lem h m p q g in
        let (rest, reads_on) =
          exchange_all-billed_all (exchange h m) ms name x.streaming x.open_ all in
        (rest ∙ ap (billed_all name ms) (x.bill name), reads_on)
