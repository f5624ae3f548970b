-- ===== src/Services/Tickets/Runs.antt =====
-- `list_runs` and `list_run_events`, on the rows of one conversation, and what they show of a run that
use ai_customer_support_plat.Tools.Database.{Uuids}
use ai_customer_support_plat.Tools.Lookups.{rows}
use ai_customer_support_plat.Services.Tickets.{AgentEvent, AgentRun, Desk, Failure, run_not_found}
use ai_customer_support_plat.Services.Tickets.Persist.{flush_run, run_events}
use ai_customer_support_plat.Prelude.{
  Bool, Bool-cases, List, Option, Result, [], ap, arith, fail, if◌then◌else◌, inl, inr, leb,
  nat_beq, nat_beq_refl, none, ok, refl, some, suc, true, zero, ℕ, ◌++◌, ◌+◌, ◌∙◌, ◌∷◌, ◌≡◌, ◌≤◌,
}
use ai_customer_support_plat.Observability.Trace.{BufferedEvent, Recorder, Callback, new_recorder}
use ai_customer_support_plat.Observability.Trace.Numbering.{
  IsNumbered, count_up, new_recorder-IsNumbered, replay, replay-IsNumbered, sequences,
}

-- has been written.
-- the run of an id
abbrev pub find_run : ℕ → List AgentRun → Option AgentRun
find_run id [] = none
find_run id (r ∷ rs) = if nat_beq r.id id then some r else find_run id rs

-- `list_runs` behind its lookup of the ticket; `newest_first` is the database's ORDER BY
unfoldable pub list_runs : (List AgentRun → List AgentRun) → Desk → List AgentRun
list_runs newest_first d = newest_first (rows (λ r. nat_beq r.ticket_id d.ticket.id) d.runs)

-- ORDER BY sequence
unfoldable pub insert_event : AgentEvent → List AgentEvent → List AgentEvent
insert_event e [] = e ∷ []
insert_event e (f ∷ fs) =
    let rest = insert_event e fs in
    if leb e.event.sequence f.event.sequence then e ∷ f ∷ fs else f ∷ rest

unfoldable pub by_sequence : List AgentEvent → List AgentEvent
unfolding insert_event
by_sequence [] = []
by_sequence (e ∷ es) = insert_event e (by_sequence es)

abbrev pub of_run : ℕ → AgentEvent → Bool
of_run id e = nat_beq e.run_id id

abbrev events_of :
    Uuids → ℕ → List AgentEvent → Option AgentRun → Result Failure (AgentRun × List AgentEvent)
events_of u id events none = fail (run_not_found (u.text id))
events_of u id events (some run) = ok (run, by_sequence (rows (of_run id) events))

-- `list_run_events`
unfoldable pub list_run_events : Uuids → ℕ → Desk → Result Failure (AgentRun × List AgentEvent)
unfolding by_sequence
list_run_events u id d = events_of u id d.events (find_run id d.runs)

find_run-append :
    (id : ℕ) (run : AgentRun) (rs : List AgentRun)
    → run.id ≡ id
    → find_run id rs ≡ none
    → find_run id (rs ++ run ∷ []) ≡ some run
find_run-append id run [] e h = rw e (rw (nat_beq_refl id) refl)
find_run-append id run (r ∷ rs) e h = elim (Bool-cases (nat_beq r.id id)) [
  | inl x ↦ absurd (some_not_none (rw x at h))
  | inr x ↦ rw x (find_run-append id run rs e (rw x at h))
]
  where
    some_not_none : some r ≡ none → ⊥
    some_not_none k = cc

rows-append :
    {A : Type 0} (test : A → Bool) (xs ys : List A)
    → rows test (xs ++ ys) ≡ rows test xs ++ rows test ys
rows-append test [] ys = refl
rows-append test (x ∷ xs) ys = elim (Bool-cases (test x)) [
  | inl e ↦ rw e (ap (λ r. x ∷ r) (rows-append test xs ys))
  | inr e ↦ rw e (rows-append test xs ys)
]

rows-run_events :
    (id : ℕ) (es : List BufferedEvent) → rows (of_run id) (run_events id es) ≡ run_events id es
rows-run_events id [] = refl
rows-run_events id (e ∷ es) =
    rw (nat_beq_refl id)
      (ap (λ (r : List AgentEvent). record { run_id = id; event = e } ∷ r) (rows-run_events id es))

-- a list's head
abbrev FirstIs : ℕ → List ℕ → Type 0
FirstIs n [] = Unit
FirstIs n (m ∷ ms) = n ≤ m

count_up-FirstIs : (n k : ℕ) → FirstIs n (count_up (n + 1) k)
unfolding count_up
count_up-FirstIs n zero = tt
count_up-FirstIs n (suc k) = omega arith

insert_event-first :
    (id : ℕ) (e : BufferedEvent) (es : List BufferedEvent)
    → FirstIs e.sequence (sequences es)
    → insert_event (record { run_id = id; event = e }) (run_events id es) ≡ run_events id (e ∷ es)
unfolding insert_event
insert_event-first id e [] h = refl
insert_event-first id e (f ∷ fs) h = rw (in_order h) refl
  where
    in_order : e.sequence ≤ f.sequence → leb e.sequence f.sequence ≡ true
    in_order k = ground arith

cons_parts : (m n : ℕ) (ms ns : List ℕ) → m ∷ ms ≡ n ∷ ns → (m ≡ n) × (ms ≡ ns)
cons_parts m n ms ns h = (cc, cc)

-- Events that are numbered one after the other are in their order.
by_sequence-numbered :
    (id n k : ℕ) (es : List BufferedEvent)
    → sequences es ≡ count_up n k
    → by_sequence (run_events id es) ≡ run_events id es
unfolding by_sequence count_up
by_sequence-numbered id n k [] h = refl
by_sequence-numbered id n zero (e ∷ es) h = cc
by_sequence-numbered id n (suc k) (e ∷ es) h =
    let p = cons_parts e.sequence n (sequences es) (count_up (n + 1) k) h in
    ap (insert_event (record { run_id = id; event = e })) (by_sequence-numbered id (n + 1) k es p.1)
    ∙ insert_event-first id e es (rw p.0 (rw p.1 (count_up-FirstIs n k)))

flush_run-listed :
    (u : Uuids) (recorder : Recorder) (run : AgentRun) (d : Desk)
    → IsNumbered recorder
    → find_run (u.random d.drawn) d.runs ≡ none
    → rows (of_run (u.random d.drawn)) d.events ≡ []
    → let written = flush_run u recorder run d in
      list_run_events u written.0 written.1
      ≡ ok (record run { id = written.0 }, run_events written.0 recorder.events)
unfolding flush_run list_run_events
flush_run-listed u recorder run d numbered new_run new_events =
    let id = u.random d.drawn in
    ap (events_of u id (d.events ++ run_events id recorder.events))
      (find_run-append id (record run { id = id }) d.runs refl new_run)
    ∙ ap (λ (es : List AgentEvent). shown (record run { id = id }) es)
        (ap by_sequence (
            rows-append (of_run id) d.events (run_events id recorder.events)
            ∙ (ap (λ r. r ++ rows (of_run id) (run_events id recorder.events)) new_events
                ∙ rows-run_events id recorder.events))
          ∙ by_sequence-numbered id 1 recorder.sequence recorder.events numbered.numbers)
  where
    shown : AgentRun → List AgentEvent → Result Failure (AgentRun × List AgentEvent)
    shown r es = ok (r, es)

-- The rows of recorded events: each event as it was recorded, under the id of the run.
pub data Shown (id : ℕ) : List BufferedEvent → List AgentEvent → Type 0 where
  none_shown : Shown id [] []
  one_shown :
      (e : BufferedEvent) (row : AgentEvent) (es : List BufferedEvent) (rows_ : List AgentEvent)
      → row.run_id ≡ id
      → row.event ≡ e
      → Shown id es rows_
      → Shown id (e ∷ es) (row ∷ rows_)

run_events-Shown : (id : ℕ) (es : List BufferedEvent) → Shown id es (run_events id es)
run_events-Shown id [] = none_shown
run_events-Shown id (e ∷ es) = one_shown e _ es _ refl refl (run_events-Shown id es)

-- Whatever callbacks a run has made: when its recorder has been written, under an id that no run and no
-- event has yet, the id shows this run, and each event that was recorded, as it was recorded and in
-- the order of the recording.
pub flush_run-list_run_events :
    (u : Uuids) (callbacks : List Callback) (run : AgentRun) (d : Desk)
    → find_run (u.random d.drawn) d.runs ≡ none
    → rows (of_run (u.random d.drawn)) d.events ≡ []
    → let recorder = replay callbacks new_recorder in
      let written = flush_run u recorder run d in
      (shown : List AgentEvent) × ((list_run_events u written.0 written.1
          ≡ ok (record run { id = written.0 }, shown))
        × Shown written.0 recorder.events shown)
flush_run-list_run_events u callbacks run d new_run new_events =
    let recorder : Recorder = replay callbacks new_recorder in
    (
      run_events (flush_run u recorder run d).0 recorder.events,
      (
        flush_run-listed u recorder run d
            (replay-IsNumbered callbacks new_recorder new_recorder-IsNumbered) new_run new_events,
        run_events-Shown (flush_run u recorder run d).0 recorder.events,
      ),
    )
