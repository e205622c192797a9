-- ===== src/Guard/Tests.antt =====
-- LimitHandler on a session, with natural numbers for the amounts.
use dist_storage.Prelude.{◌≡◌, refl, ◌+◌, ℕ, true, List, [], ◌∷◌, Bytes, Bytes-discrete, bytes_less}
use dist_storage.Prelude.Maps.{lookup, insert_or_assign}
use dist_storage.Stream.Router.{k_streaming}
use dist_storage.Guard.Limit.{
  LimitHandler, new_handler, ResourceRequestUnion, bill_append, bill_overwrite, resource_request,
  read, bind, clone, k_read, process, handle_stream_connect, process_pending,
  handle_read_completion, handle_write_completion, process_incoming_message, process_case,
  after_message, append_items, overwrite_items,
}
use dist_storage.Guard.Limit.Waits.{
  Waits, reads, Answers, EndsWithin, process-Answers, process-EndsWithin,
}
use dist_storage.Guard.Limit.Bills.{billed_all, exchange_all, exchange_all-billed_all}

abbrev plus : ℕ → ℕ → ℕ
plus x y = x + y

-- A stream that is accepted and waits for its first message.
abbrev open_session : LimitHandler ℕ
open_session = record new_handler {
  stream_connect_phase = k_streaming;
  acts = bind ∷ clone ∷ read ∷ [];
}

connects : process plus 0 (process plus 0 new_handler true) true ≡ open_session
unfolding process handle_stream_connect
connects = refl

open_session-Waits : Waits open_session read
open_session-Waits = reads refl refl

abbrev cpu : Bytes
cpu = 99 ∷ []

abbrev disk : Bytes
disk = 100 ∷ []

abbrev messages : List (ResourceRequestUnion ℕ)
messages =
    (resource_request ((cpu, 9) ∷ []))
    ∷ bill_append ((cpu, 2) ∷ (disk, 7) ∷ [])
    ∷ bill_overwrite ((cpu, 5) ∷ [])
    ∷ bill_append ((cpu, 4) ∷ [])
    ∷ []

session_bill : (exchange_all plus 0 open_session messages).res_request ≡ (cpu, 9) ∷ []
unfolding process process_pending handle_read_completion handle_write_completion
    process_incoming_message process_case after_message append_items overwrite_items lookup
    insert_or_assign Bytes-discrete bytes_less
session_bill = refl

process-Answers_example : Answers open_session (process plus 0 open_session true) read true
process-Answers_example = process-Answers plus 0 open_session read true open_session-Waits

process-EndsWithin_example : EndsWithin plus 0 open_session 2
process-EndsWithin_example = process-EndsWithin plus 0 open_session read open_session-Waits

exchange_all-billed_all_example :
    (lookup Bytes-discrete cpu (exchange_all plus 0 open_session messages).res_request
      ≡ billed_all plus 0 cpu messages (lookup Bytes-discrete cpu open_session.res_request))
    × ((exchange_all plus 0 open_session messages).pending ≡ k_read)
exchange_all-billed_all_example =
    exchange_all-billed_all plus 0 open_session messages cpu refl refl (tt, (tt, (tt, (tt, tt))))
