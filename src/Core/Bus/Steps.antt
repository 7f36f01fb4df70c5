-- ===== src/Core/Bus/Steps.antt =====
-- The worker loop of src/core/EventBus.cpp against the other threads. A schedule is the list of the
-- atomic sections that run, in the order of the queue's mutex.
use nexus_firmware.Prelude.{
  ℕ, zero, suc, ◌+◌, ◌-◌, ◌*◌, ◌≤◌, ◌≡◌, refl, ◌∙◌, ◌⊎◌, inl, inr, Bool, true, false, List, [], ◌∷◌,
  ◌++◌, arith, length, length-append, if◌then◌else◌,
}
use nexus_firmware.Core.Event.{Event}
use nexus_firmware.Core.Bus.{EventBus, init, publish, stop}
use mathlib.Core.List.{append-nil, append_assoc}

-- What the worker is doing: waiting on the condition variable, inside `dispatch`, or returned.
pub data Worker : Type 0 where
  waiting : Worker
  dispatching : Event → Worker
  returned : Worker

-- The bus and its worker, with what `publish` has accepted and what has been dispatched so far.
pub record Run : Type 0 where
  pub bus : EventBus
  pub worker : Worker
  pub accepted : List Event
  pub dispatched : List Event

take_next : Run → List Event → Run
take_next r [] = if r.bus.running then r else record r { worker = returned }
take_next r (e ∷ rest) = record r { bus = record r.bus { queue = rest }; worker = dispatching e }

worker_at : Worker → Run → Run
unfolding take_next
worker_at waiting r = take_next r r.bus.queue
worker_at (dispatching e) r = record r {
  bus = record r.bus { in_flight = r.bus.in_flight - 1 };
  worker = waiting;
  dispatched = r.dispatched ++ (e ∷ []);
}
worker_at returned r = r

-- One section of `workerLoop`: take the front event or return, or count the event as done.
pub worker_step : Run → Run
unfolding worker_at
worker_step r = worker_at r.worker r

pub data Section : Type 0 where
  publishes : Event → Section
  stops : Section
  works : Section

pub step : Run → Section → Run
unfolding worker_step publish stop
step r (publishes e) = record r {
  bus = publish r.bus e;
  accepted = if r.bus.running then r.accepted ++ (e ∷ []) else r.accepted;
}
step r stops = record r { bus = stop r.bus }
step r works = worker_step r

pub run : Run → List Section → Run
run r [] = r
run r (s ∷ ss) = run (step r s) ss

pub start : Run
unfolding init
start = record { bus = init; worker = waiting; accepted = []; dispatched = [] }

-- The event that is being dispatched.
abbrev pub current : Worker → List Event
current (dispatching e) = e ∷ []
current waiting = []
current returned = []

abbrev pub is_returned : Worker → Bool
is_returned (dispatching e) = false
is_returned waiting = false
is_returned returned = true

pub record Inv (r : Run) : Type 0 where
  pub fifo : r.accepted ≡ r.dispatched ++ (current r.worker ++ r.bus.queue)
  pub counted : r.bus.in_flight ≡ length (current r.worker) + length r.bus.queue
  pub ended : (is_returned r.worker ≡ false) ⊎ ((r.bus.running ≡ false) × (r.bus.queue ≡ []))

nil_of_length : (q : List Event) → length q ≡ 0 → q ≡ []
nil_of_length [] h = refl
nil_of_length (e ∷ q) h = absurd (omega arith)

start-Inv : Inv start
unfolding start init
start-Inv = record { fifo = refl; counted = refl; ended = inl refl }

publishes-Inv : (r : Run) (e : Event) → Inv r → Inv (step r (publishes e))
unfolding step
publishes-Inv r e v = ground (
  arith,
  append_assoc r.dispatched (current r.worker ++ r.bus.queue) (e ∷ []),
  append_assoc (current r.worker) r.bus.queue (e ∷ []),
  length-append r.bus.queue (e ∷ []),
)

works-Inv :
    (w : Worker) (q : List Event) (r : Run)
    → r.worker ≡ w
    → r.bus.queue ≡ q
    → Inv r
    → Inv (step r works)
unfolding step
works-Inv waiting [] r ew eq v = ground arith
works-Inv waiting (e ∷ q) r ew eq v = ground arith
works-Inv (dispatching e) q r ew eq v =
    ground (arith, append_assoc r.dispatched (e ∷ []) r.bus.queue)
works-Inv returned q r ew eq v = ground arith

step-Inv : (r : Run) (s : Section) → Inv r → Inv (step r s)
unfolding step
step-Inv r (publishes e) v = publishes-Inv r e v
step-Inv r stops v = ground arith
step-Inv r works v = works-Inv r.worker r.bus.queue r refl refl v

pub run-Inv : (r : Run) (ss : List Section) → Inv r → Inv (run r ss)
unfolding run
run-Inv r [] v = v
run-Inv r (s ∷ ss) v = run-Inv (step r s) ss (step-Inv r s v)

-- Under every schedule of publishers, `stop` and the worker, an accepted event is dispatched once
-- and in the order of acceptance: what was accepted is what was dispatched, then the event inside
-- `dispatch`, then the queue. And `in_flight_` counts the last two, and a worker that has returned
-- left a stopped bus with an empty queue.
pub run_fifo : (ss : List Section) → Inv (run start ss)
run_fifo ss = run-Inv start ss start-Inv

idle_complete :
    (w : Worker) (r : Run) → r.worker ≡ w → Inv r → r.bus.in_flight ≡ 0 → r.dispatched ≡ r.accepted
idle_complete (dispatching e) r ew v h = ground arith
idle_complete _ r ew v h = ground (arith, append-nil r.dispatched, nil_of_length r.bus.queue)

-- What `drain` waits for: when `in_flight_` is 0, under any schedule, every event accepted so far
-- has been dispatched.
pub drain_complete :
    (ss : List Section)
    → (run start ss).bus.in_flight ≡ 0
    → (run start ss).dispatched ≡ (run start ss).accepted
drain_complete ss h = idle_complete (run start ss).worker (run start ss) refl (run_fifo ss) h

-- How many sections of its own the worker still needs.
pub work_left : Run → ℕ
work_left r = 2 * length r.bus.queue + length (current r.worker) + 1

pub work : ℕ → Run → Run
work zero r = r
work (suc n) r = work n (step r works)

IsDone : Run → Type 0
IsDone r = r.worker ≡ returned

worker_progress :
    (w : Worker) (q : List Event) (r : Run)
    → r.worker ≡ w
    → r.bus.queue ≡ q
    → r.bus.running ≡ false
    → IsDone (step r works) ⊎ (work_left (step r works) + 1 ≡ work_left r)
unfolding step work_left IsDone
worker_progress waiting [] r ew eq h = ground arith
worker_progress waiting (e ∷ q) r ew eq h = ground arith
worker_progress (dispatching e) q r ew eq h = ground arith
worker_progress returned q r ew eq h = ground arith

-- The worker changes neither what was accepted nor `running_`.
works_keeps :
    (w : Worker) (q : List Event) (r : Run)
    → r.worker ≡ w
    → r.bus.queue ≡ q
    → ((step r works).accepted ≡ r.accepted) × ((step r works).bus.running ≡ r.bus.running)
unfolding step
works_keeps waiting [] r ew eq = ground arith
works_keeps waiting (e ∷ q) r ew eq = ground arith
works_keeps (dispatching e) q r ew eq = ground arith
works_keeps returned q r ew eq = ground arith

work_of_IsDone : (n : ℕ) (r : Run) → IsDone r → work n r ≡ r
unfolding work IsDone step
work_of_IsDone zero r d = refl
work_of_IsDone (suc n) r d = ground (arith, work_of_IsDone n r d)

work_ends : (n : ℕ) (r : Run) → r.bus.running ≡ false → work_left r ≤ n → IsDone (work n r)
unfolding work work_left
work_ends zero r h b = absurd (omega arith)
work_ends (suc n) r h b = elim (worker_progress r.worker r.bus.queue r refl refl h) [
  | inl d ↦ rw (work_of_IsDone n (step r works) d) d
  | inr e ↦
      work_ends n (step r works) ((works_keeps r.worker r.bus.queue r refl refl).1 ∙ h)
        (omega arith)
]

work-Inv : (n : ℕ) (r : Run) → Inv r → Inv (work n r)
unfolding work
work-Inv zero r v = v
work-Inv (suc n) r v = work-Inv n (step r works) (step-Inv r works v)

accepted-work : (n : ℕ) (r : Run) → (work n r).accepted ≡ r.accepted
unfolding work
accepted-work zero r = refl
accepted-work (suc n) r =
    accepted-work n (step r works) ∙ (works_keeps r.worker r.bus.queue r refl refl).0

done_complete : (r : Run) → Inv r → IsDone r → r.dispatched ≡ r.accepted
unfolding IsDone
done_complete r v d = ground (arith, append-nil r.dispatched)

-- After `stop`, under any schedule before it, the worker returns by itself after at most
-- `work_left` of its sections, and then every event that was accepted has been dispatched.
pub stop_drains :
    (ss : List Section)
    → let r = step (run start ss) stops in
      let ended = work (work_left r) r in
      (ended.worker ≡ returned) × (ended.dispatched ≡ r.accepted)
unfolding IsDone
stop_drains ss =
    let r = step (run start ss) stops in
    let d = work_ends (work_left r) r (unfold step stop in refl) (omega arith) in
    let v = work-Inv (work_left r) r (step-Inv (run start ss) stops (run_fifo ss)) in
    (d, done_complete (work (work_left r) r) v d ∙ accepted-work (work_left r) r)
