-- ===== src/Workflow/Follows.antt =====
-- What every step of a run's cursor keeps: the row is the object's, the version does not fall, the
-- event numbers have no gap, and claims and decisions are left alone.
use creditlens.Base.{
  ℕ, ◌+◌, ◌≤◌, ◌<◌, max, ◌≡◌, refl, subst, sym, ◌∙◌, Bool, true, false, some, List, [], ◌∷◌, ◌++◌,
  ◌||◌, ◌==◌, if◌then◌else◌, arith, Bool-cases, inl, inr, find, update_where,
}
use creditlens.Base.Session.{Ends}
use creditlens.Workflow.Status.{RunStatus, allowed}
use creditlens.Workflow.Records.{Run, Db, Event, RunEvent, state_changed, write_run, find_run}
use creditlens.Workflow.Events.{
  Cursor, record_event, move_to, transition, emit, advance, start_seq, last_sequence,
}

-- The cursor's run is the row, and its writer goes on from the last event of the run.
pub record IsSynced (c : Cursor) (db : Db) : Type 0 where
  pub row : find_run c.run.id db ≡ some c.run
  pub next : start_seq c.run c.writer db ≡ last_sequence c.run.id db.events + 1

pub record Follows (c : Cursor) (db : Db) (c' : Cursor) (db' : Db) : Type 0 where
  pub synced : IsSynced c' db'
  pub same_run : c'.run.id ≡ c.run.id
  pub version : c.run.state_version ≤ c'.run.state_version
  pub decisions : db'.decisions ≡ db.decisions
  pub claims : db'.claims ≡ db.claims

pub Follows-trans :
    {a b c : Cursor} {x y z : Db} → Follows a x b y → Follows b y c z → Follows a x c z
Follows-trans p q = record {
  synced = q.synced;
  same_run = q.same_run ∙ p.same_run;
  version = omega (arith, p.version, q.version);
  decisions = q.decisions ∙ p.decisions;
  claims = q.claims ∙ p.claims;
}

pub Follows-refl : {c : Cursor} {db : Db} → IsSynced c db → Follows c db c db
Follows-refl s = record {
  synced = s;
  same_run = refl;
  version = omega arith;
  decisions = refl;
  claims = refl;
}

last_sequence-append :
    (run n : ℕ) (event : Event) (es : List RunEvent)
    → last_sequence run (es ++ record { run_id = run; sequence_no = n; event = event } ∷ [])
      ≡ max (last_sequence run es) n
unfolding last_sequence
last_sequence-append run n event [] = ground arith
last_sequence-append run n event (e ∷ es) = ground (arith, last_sequence-append run n event es)

find_run-write_run :
    (r q : Run) (rs : List Run)
    → find (λ x. x.id == r.id) rs ≡ some q
    → find (λ x. x.id == r.id) (update_where (λ x. x.id == r.id) (λ _. r) rs) ≡ some r
find_run-write_run r q [] h = cc
find_run-write_run r q (x ∷ xs) h = ground (arith, find_run-write_run r q xs)

pub write_run-find :
    (r q : Run) (db : Db) → find_run r.id db ≡ some q → find_run r.id (write_run r db) ≡ some r
unfolding find_run write_run
write_run-find r q db h = find_run-write_run r q db.runs h

pub record_event-Follows :
    (event : Event) (c : Cursor) (db : Db)
    → IsSynced c db
    → Follows c db (record c { writer = advance c.run c.writer db }) (emit c.run event c.writer db)
unfolding emit advance find_run start_seq
record_event-Follows event c db s = record {
  synced = record { row = s.row; next = rw last_sequence-append (omega (arith, s.next)) };
  same_run = refl;
  version = omega arith;
  decisions = refl;
  claims = refl;
}

-- The object's new fields are written to its row.
pub write_run-IsSynced :
    (r : Run) (c : Cursor) (db : Db)
    → r.id ≡ c.run.id
    → IsSynced c db
    → IsSynced (record c { run = r }) (write_run r db)
unfolding start_seq write_run
write_run-IsSynced r c db same s = record {
  row = write_run-find r c.run db (subst (λ i. find_run i db ≡ some c.run) (sym same) s.row);
  next =
      subst
        (λ i.
          (if c.writer.initialized then c.writer.next_seq else last_sequence i db.events + 1)
          ≡ last_sequence i db.events + 1)
        (sym same) s.next;
}

pub write_run-decisions : (r : Run) (db : Db) → (write_run r db).decisions ≡ db.decisions
unfolding write_run
write_run-decisions r db = refl

pub write_run-claims : (r : Run) (db : Db) → (write_run r db).claims ≡ db.claims
unfolding write_run
write_run-claims r db = refl

pub write_run-reports : (r : Run) (db : Db) → (write_run r db).reports ≡ db.reports
unfolding write_run
write_run-reports r db = refl

-- A step into a state: it follows, and has a new version.
pub record Moves (to : RunStatus) (c : Cursor) (db : Db) (c' : Cursor) (db' : Db) : Type 0 where
  pub follows : Follows c db c' db'
  pub status : c'.run.status ≡ to
  pub newer : c.run.state_version < c'.run.state_version
  pub reports : db'.reports ≡ db.reports

-- The run's fields as a transition writes them.
abbrev pub moved : RunStatus → Run → Run
moved to r = record r { status = to; state_version = r.state_version + 1 }

move_to-Moves :
    (E : Type 0) (to : RunStatus) (c : Cursor) (db : Db)
    → IsSynced c db
    → Ends {E = E} (λ c' db'. Moves to c db c' db') (λ e db'. ⊥) (move_to to c db)
unfolding move_to record_event
move_to-Moves E to c db s =
    let c1 : Cursor = record c { run = moved to c.run } in
    let s1 : IsSynced c1 (write_run (moved to c.run) db) =
      write_run-IsSynced (moved to c.run) c db refl s in
    let f =
      record_event-Follows (state_changed c.run.status to) c1 (write_run (moved to c.run) db) s1 in
    record {
      follows = record {
        synced = f.synced;
        same_run = refl;
        version = omega arith;
        decisions = f.decisions ∙ write_run-decisions (moved to c.run) db;
        claims = f.claims ∙ write_run-claims (moved to c.run) db;
      };
      status = refl;
      newer = omega arith;
      reports = write_run-reports (moved to c.run) db;
    }

-- A transition that is not forced is made exactly when the table allows it; a refused one raises
-- and writes nothing.
pub transition-Ends :
    {E : Type 0} (refused : E) (force : Bool) (to : RunStatus) (c : Cursor) (db : Db)
    → IsSynced c db
    → Ends
        (λ c' db'. Moves to c db c' db' × ((force || allowed c.run.status to) ≡ true))
        (λ e db'. (e ≡ refused) × (db' ≡ db) × ((force || allowed c.run.status to) ≡ false))
        (transition refused force to c db)
unfolding transition
transition-Ends {E} refused force to c db s = elim (Bool-cases (force || allowed c.run.status to)) [
  | inl made ↦ rw made (move_to-Moves E to c db s, refl)
  | inr out ↦ rw out (refl, refl, refl)
]

-- Where the table allows it, the transition is made.
pub transition-made :
    {E : Type 0} (Q : E → Db → Type 0) (refused : E) (to : RunStatus) (c : Cursor) (db : Db)
    → allowed c.run.status to ≡ true
    → IsSynced c db
    → Ends (λ c' db'. Moves to c db c' db') Q (transition refused false to c db)
unfolding transition
transition-made {E} Q refused to c db h s = rw h (move_to-Moves E to c db s)

-- A forced transition is made from every state.
pub transition-forced :
    {E : Type 0} (Q : E → Db → Type 0) (refused : E) (to : RunStatus) (c : Cursor) (db : Db)
    → IsSynced c db
    → Ends (λ c' db'. Moves to c db c' db') Q (transition refused true to c db)
unfolding transition
transition-forced {E} Q refused to c db s = move_to-Moves E to c db s
