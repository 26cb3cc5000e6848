-- ===== src/Tests/Locks.antt =====
-- The theorems on execution locks and run records, at a store in memory.
use execution_engine.Common.{List, none, ◌≡◌, true, false, some, [], ◌∷◌, refl, keep}
use execution_engine.Durability.Memory.{memory, memory_laws}
use execution_engine.Durability.Store.{
  deadline_of, run_lock_deadline, request_resume, resume_request_time, resume_requested,
  clear_resume_request,
}
use execution_engine.Durability.Ownership.{
  LockCall, acquire, renew, release, who, deadline, lapse, acquired, lost, held_by, until, silence,
  LockTable, replay, serve_all, Represents, serve_all-replay,
}
use execution_engine.Durability.Runs.{resume_request_stands}
use execution_engine.Tests.Data.{store0}

abbrev open_table : LockTable
open_table = record { owner_of = λ _. none; deadline_of = λ _ _. 0 }

-- a rival is refused while the lock stands, takes it after it lapsed, and keeps it when the first
-- owner renews and releases
abbrev calls : List LockCall
calls =
    acquire 100 "r1" "a" 30
    ∷ acquire 110 "r1" "b" 30
    ∷ deadline "r1" "a"
    ∷ lapse "r1"
    ∷ acquire 140 "r1" "b" 30
    ∷ renew ("r1" ∷ []) "a" 30
    ∷ release "r1" "a"
    ∷ who "r1"
    ∷ []

answers_test :
    replay open_table calls
    ≡ acquired true
      ∷ acquired false
      ∷ until 130
      ∷ silence
      ∷ acquired true
      ∷ lost ("r1" ∷ [])
      ∷ silence
      ∷ held_by true (some "b")
      ∷ []
unfolding replay keep
answers_test = refl

store0-Represents : Represents memory store0 open_table
unfolding run_lock_deadline deadline_of
store0-Represents = record { owners = λ _. refl; deadlines = λ _ _. refl }

serve_all-replay_example : serve_all memory store0 calls ≡ replay open_table calls
serve_all-replay_example =
    serve_all-replay memory memory_laws store0 open_table calls store0-Represents

resume_request_stands_example :
    (resume_request_time memory
        (request_resume memory (request_resume memory store0 10 "r1") 20 "r1")
        "r1"
      ≡ some 10)
    × (resume_requested memory
          (clear_resume_request memory
            (request_resume memory (request_resume memory store0 10 "r1") 20 "r1")
            "r1")
          "r1"
        ≡ false)
unfolding resume_requested
resume_request_stands_example = resume_request_stands memory memory_laws store0 10 20 "r1" refl
