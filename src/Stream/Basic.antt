-- ===== src/Stream/Basic.antt =====
-- GRPCBasicHandler (common/grpc/callback.h), which every unary request is handled by.
pub mod Unanswered
use dist_storage.Prelude.{ℕ, zero, suc, ◌+◌, Bool, true, false, List, [], ◌∷◌, ◌++◌, if◌then◌else◌}

-- What a handler does.
pub data Action : Type 0 where
  binds clones handles finishes destroys : Action

-- The member `state`, and what the handler has done, oldest first.
pub record BasicHandler : Type 0 where
  pub state : ℕ
  pub actions : List Action

abbrev pub acts : BasicHandler → ℕ → List Action → BasicHandler
acts h state actions = record { state = state; actions = h.actions ++ actions }

-- The `switch` of process on the old state.
unfoldable pub process_state : BasicHandler → Bool → ℕ → BasicHandler
process_state h running zero = acts h 1 (binds ∷ [])
process_state h running (suc zero) = acts h 2 (if running then clones ∷ [] else [])
process_state h running (suc (suc zero)) = acts h 12345 (handles ∷ finishes ∷ [])
process_state h running (suc (suc (suc k))) = acts h (suc (suc (suc k)) + 1) (destroys ∷ [])

-- process
unfoldable pub basic_process : BasicHandler → Bool → BasicHandler
basic_process h running = process_state h running h.state

abbrev pub new_handler : BasicHandler
new_handler = record { state = 0; actions = [] }
