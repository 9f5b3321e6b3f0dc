-- ===== src/Workflow/Events.antt =====
-- `_EventWriter`, `Supervisor._transition` and `_transition_run` (agents/supervisor.py).
use creditlens.Base.{ℕ, ◌+◌, max, Bool, true, false, List, [], ◌∷◌, ◌++◌, ◌||◌, ◌==◌, if◌then◌else◌}
use creditlens.Base.Result.{ok}
use creditlens.Base.Session.{Exec, require, modify, ◌>>◌}
use creditlens.Workflow.Status.{RunStatus, allowed}
use creditlens.Workflow.Records.{Run, Db, Event, RunEvent, state_changed, write_run}

-- `_EventWriter`: the next number is read from the table at the first event, or is 1.
pub record EventWriter : Type 0 where
  pub next_seq : ℕ
  pub initialized : Bool

-- `_EventWriter.__init__`
unfoldable pub new_writer : Bool → EventWriter
new_writer is_resume = record { next_seq = 1; initialized = if is_resume then false else true }

-- `max(sequence_no)`, which is NULL, read as 0, where the run has no event.
unfoldable pub last_sequence : ℕ → List RunEvent → ℕ
last_sequence run [] = 0
last_sequence run (e ∷ es) =
    max (if e.run_id == run then e.sequence_no else 0) (last_sequence run es)

unfoldable pub start_seq : Run → EventWriter → Db → ℕ
unfolding last_sequence
start_seq run w db = if w.initialized then w.next_seq else last_sequence run.id db.events + 1

-- `_EventWriter.emit`, as it leaves the table and the writer.
unfoldable pub emit : Run → Event → EventWriter → Db → Db
unfolding start_seq
emit run event w db = record db {
  events =
      db.events ++ record { run_id = run.id; sequence_no = start_seq run w db; event = event } ∷ [];
}

unfoldable pub advance : Run → EventWriter → Db → EventWriter
unfolding start_seq
advance run w db = record { next_seq = start_seq run w db + 1; initialized = true }

-- A run in the hands of one writer.
pub record Cursor : Type 0 where
  pub run : Run
  pub writer : EventWriter

unfoldable pub record_event : {E : Type 0} → Event → Cursor → Exec E Db Cursor
unfolding emit advance
record_event event c db =
    (ok (record c { writer = advance c.run c.writer db }), emit c.run event c.writer db)

-- The writes of a transition that is made.
unfoldable pub move_to : {E : Type 0} → RunStatus → Cursor → Exec E Db Cursor
unfolding record_event write_run
move_to new_status c = do
  let run' = record c.run { status = new_status; state_version = c.run.state_version + 1 }
  modify (write_run run')
  record_event (state_changed c.run.status new_status) (record c { run = run' })

-- `_transition`; `_transition_run` is the case that is not forced.
unfoldable pub transition :
    {E : Type 0} → E → (force : Bool) → RunStatus → Cursor → Exec E Db Cursor
unfolding allowed move_to
transition refused force new_status c = do
  require (force || allowed c.run.status new_status) refused
  move_to new_status c
