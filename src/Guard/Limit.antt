-- ===== src/Guard/Limit.antt =====
-- LimitHandler (minion/resource_guard/resource_guard.cc), on the connection phases of GRPCStreamHandler
-- (common/grpc/callback.h). `F` is double, with `plus` and `zero_value`, which operator[] starts from.
pub mod Waits
pub mod Bills
use dist_storage.Prelude.{
  Bool, true, false, List, [], ◌∷◌, ◌++◌, Bytes, Bytes-discrete, bytes_less, if◌then◌else◌, Option,
  none, some,
}
use dist_storage.Prelude.Maps.{lookup, insert_or_assign}
use dist_storage.Stream.Router.{StreamConnectPhase, k_initial, k_accepted, k_streaming}

pub data PendingOp : Type 0 where
  k_read k_write k_finish : PendingOp

pub data ProcessResult : Type 0 where
  ack_write stream_finished : ProcessResult

pub data OperationResult : Type 0 where
  ok_result failed cancelled timeout overload : OperationResult

-- ResourceRequestUnion; a ResourceRequest has the items of the bill to begin with, and nothing reads its
-- header and billing ids.
pub data ResourceRequestUnion (F : Type 0) : Type 0 where
  v_not_set : ResourceRequestUnion F
  resource_request bill_append bill_overwrite : List (Bytes × F) → ResourceRequestUnion F
  resource_finish : OperationResult → ResourceRequestUnion F

-- What the handler asks of gRPC, and what it does to handlers.
pub data Act : Type 0 where
  bind clone read write finish destroy : Act

-- `acts` records what the handler has done, oldest first.
pub record LimitHandler (F : Type 0) : Type 0 where
  pub stream_connect_phase : StreamConnectPhase
  pub pending : PendingOp
  pub res_request : List (Bytes × F)
  pub request : ResourceRequestUnion F
  pub response : OperationResult
  pub acts : List Act

abbrev pub new_handler : {F : Type 0} → LimitHandler F
new_handler = record {
  stream_connect_phase = k_initial;
  pending = k_read;
  res_request = [];
  request = v_not_set;
  response = ok_result;
  acts = [];
}

module _ {F : Type 0} where
  abbrev pub does : LimitHandler F → List Act → LimitHandler F
  does h acts = record h { acts = h.acts ++ acts }

  -- finish, after `pending_ = PendingOp::kFinish`
  abbrev pub finishing : LimitHandler F → LimitHandler F
  finishing h = does (record h { pending = k_finish }) (finish ∷ [])

  -- read, after `pending_ = PendingOp::kRead`
  abbrev pub reading : LimitHandler F → LimitHandler F
  reading h = does (record h { pending = k_read }) (read ∷ [])

  -- handle_stream_connect
  unfoldable pub handle_stream_connect : LimitHandler F → Bool → LimitHandler F
  handle_stream_connect h running = handle_phase h.stream_connect_phase
    where
      handle_phase : StreamConnectPhase → LimitHandler F
      handle_phase k_initial = does (record h { stream_connect_phase = k_accepted }) (bind ∷ [])
      handle_phase k_accepted =
          if running
          then reading (does (record h { stream_connect_phase = k_streaming }) (clone ∷ []))
          else does h (destroy ∷ [])
      handle_phase k_streaming = h

  -- `res_request_.clear()` and the loop over the items of an overwrite
  unfoldable pub overwrite_items : List (Bytes × F) → List (Bytes × F) → List (Bytes × F)
  overwrite_items [] bill = bill
  overwrite_items ((name, v) ∷ items) bill =
      overwrite_items items (insert_or_assign Bytes-discrete bytes_less name v bill)

  module _ (plus : F → F → F) (zero_value : F) where
    abbrev pub or_zero : Option F → F
    or_zero none = zero_value
    or_zero (some x) = x

    -- `res_request_[v.first] += v.second`
    abbrev charge : Bytes → F → List (Bytes × F) → List (Bytes × F)
    charge name v bill =
        insert_or_assign Bytes-discrete bytes_less name
          (plus (or_zero (lookup Bytes-discrete name bill)) v) bill

    -- The loop over the items of an append.
    unfoldable pub append_items : List (Bytes × F) → List (Bytes × F) → List (Bytes × F)
    append_items [] bill = bill
    append_items ((name, v) ∷ items) bill = append_items items (charge name v bill)

    -- The `switch` of process_incoming_message.
    unfoldable pub process_case :
        LimitHandler F → ResourceRequestUnion F → LimitHandler F × ProcessResult
    process_case h (resource_finish _) =
        (finishing (record h { request = v_not_set }), stream_finished)
    process_case h (bill_append items) = (
      record h { res_request = append_items items h.res_request; response = ok_result },
      ack_write,
    )
    process_case h (bill_overwrite items) =
        (record h { res_request = overwrite_items items []; response = ok_result }, ack_write)
    process_case h (resource_request items) = (record h { response = ok_result }, ack_write)
    process_case h v_not_set = (record h { response = ok_result }, ack_write)

    -- process_incoming_message
    unfoldable pub process_incoming_message : LimitHandler F → LimitHandler F × ProcessResult
    process_incoming_message h = process_case h h.request

    -- The end of handle_read_completion.
    unfoldable pub after_message : LimitHandler F × ProcessResult → LimitHandler F
    after_message (h, stream_finished) = h
    after_message (h, ack_write) =
        does (record h { request = v_not_set; pending = k_write }) (write ∷ [])

    -- handle_read_completion
    unfoldable pub handle_read_completion : LimitHandler F → Bool → LimitHandler F
    handle_read_completion h running =
        if running then after_message (process_incoming_message h) else finishing h

    -- handle_write_completion
    unfoldable pub handle_write_completion : LimitHandler F → Bool → LimitHandler F
    handle_write_completion h running = if running then reading h else finishing h

    -- The `switch` of process.
    unfoldable pub process_pending : LimitHandler F → Bool → PendingOp → LimitHandler F
    process_pending h running k_read = handle_read_completion h running
    process_pending h running k_write = handle_write_completion h running
    process_pending h running k_finish = does h (destroy ∷ [])

    -- process
    unfoldable pub process : LimitHandler F → Bool → LimitHandler F
    process h running = elim h.stream_connect_phase [
      | k_streaming ↦ process_pending h running h.pending
      | k_initial ↦ handle_stream_connect h running
      | k_accepted ↦ handle_stream_connect h running
    ]
