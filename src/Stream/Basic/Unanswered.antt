-- ===== src/Stream/Basic/Unanswered.antt =====
-- A unary request never gets to handle_request.
use dist_storage.Prelude.{ℕ, suc, ◌+◌, ◌≡◌, Bool, true, List, [], ◌∷◌, ◌⊎◌}
use dist_storage.Stream.Basic.{
  Action, binds, clones, handles, finishes, destroys, BasicHandler, basic_process, new_handler,
}

-- The actions for which gRPC owes the handler a completion: RequestSend and its like, and Finish.
abbrev pub owed : List Action → ℕ
owed [] = 0
owed (binds ∷ rest) = suc (owed rest)
owed (finishes ∷ rest) = suc (owed rest)
owed (clones ∷ rest) = owed rest
owed (handles ∷ rest) = owed rest
owed (destroys ∷ rest) = owed rest

-- A handler is primed by one call of process; after that each call of process is a completion that
-- gRPC owes, successful or not, and `count` of them have come.
pub data Served : BasicHandler → ℕ → Type 0 where
  primed : Served (basic_process new_handler true) 0
  completed :
      {h : BasicHandler} {count : ℕ} (left : ℕ) (running : Bool)
      → Served h count
      → owed h.actions ≡ count + suc left
      → Served (basic_process h running) (suc count)

-- Where a handler can be: bound, or past the only completion that it is owed.
data Stage (h : BasicHandler) (count : ℕ) : Type 0 where
  waits : h ≡ record { state = 1; actions = binds ∷ [] } → count ≡ 0 → Stage h count
  stuck :
      (rest : List Action)
      → h ≡ record { state = 2; actions = binds ∷ rest }
      → (rest ≡ []) ⊎ (rest ≡ clones ∷ [])
      → count ≡ 1
      → Stage h count
