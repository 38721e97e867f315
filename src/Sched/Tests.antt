-- ===== src/Sched/Tests.antt =====
-- Three requests at the addresses 1, 2 and 3, for the sectors 10, 20 and 30.
use riscy_os.Base.{
  ℕ, ◌+◌, ◌*◌, ◌≡◌, refl, ◌⊎◌, inl, none, List, [], ◌∷◌, arith, ◌==◌, if◌then◌else◌, write,
}
use riscy_os.Sched.{
  idle, busy, Scheduler, io_sched_submit, Ring, sd_idle, nothing, sd_irsq_handler, Io, pump_round,
  io_sched_pump, enqueue, set_next, io_sched_issue_next, sd_call, wait_read,
}
use riscy_os.Sched.Queue.{Queued}
use riscy_os.Sched.Runs.{
  IsFair, Orders, order, served, callback, planned, Reach, here, next, submit, interrupt, pump,
  Reach-IsFair,
}
use riscy_os.Sched.Pump.{waiting, io_sched_pump_spurious, pump_round_correct}

abbrev two_waiting : Scheduler
two_waiting = record {
  queue_head = 1;
  queue_tail = 2;
  in_flight = 4;
  state = busy;
  reqs = λ p. record { lba = 10 * p; ctx = 0; next = if p == 1 then 2 else 0 };
  started = 40 ∷ [];
}

abbrev at_rest : Scheduler
at_rest = record two_waiting {
  queue_head = 0;
  queue_tail = 0;
  in_flight = 0;
  state = idle;
  started = [];
}

two_waiting-Queued : Queued two_waiting (1 ∷ 2 ∷ [])
two_waiting-Queued = (refl, omega arith, omega arith, (refl, omega arith, refl, refl))

-- One completion waits, at index 254.
abbrev ring : Ring
ring = record { head = 255; tail = 254; status = λ i. 5 }

-- A callback that submits request 3.
abbrev submits : ℕ → ℕ → Scheduler → Scheduler
submits ctx status s = io_sched_submit s 3

abbrev io : Io
io = record { sched = two_waiting; ring = ring; freed = [] }

pump_round_correct_example :
    let io' = pump_round submits io in
    (waiting io'.ring + 1 ≡ waiting ring)
    × (io'.freed ≡ 4 ∷ [])
    × ((io'.sched.state ≡ busy) ⊎ (io'.sched.queue_head ≡ 0))
pump_round_correct_example = pump_round_correct submits io (omega arith) (omega arith) (omega arith)

abbrev quiet : Io
quiet = record { sched = at_rest; ring = record ring { tail = 255 }; freed = [] }

io_sched_pump_spurious_example :
    ((sd_irsq_handler sd_idle quiet.ring).0 ≡ nothing)
    × (io_sched_pump submits 9 (record quiet { ring = (sd_irsq_handler sd_idle quiet.ring).1 })
        ≡ none)
io_sched_pump_spurious_example =
    io_sched_pump_spurious submits 9 sd_idle quiet (inl refl) (omega arith) refl refl

-- The callback of request 1 submits request 3.
abbrev plan : ℕ → ℕ → List ℕ
plan ctx status = if ctx == 1 then 3 ∷ [] else []

abbrev start : Io
start = record {
  sched = record at_rest { reqs = λ p. record { lba = 10 * p; ctx = p; next = 0 } };
  ring = record ring { tail = 255 };
  freed = [];
}

abbrev no_orders : Orders
no_orders = record { unserved = []; submitted = [] }

abbrev one_submitted : Io
one_submitted = record start { sched = io_sched_submit start.sched 1 }

abbrev two_submitted : Io
two_submitted = record one_submitted { sched = io_sched_submit one_submitted.sched 2 }

abbrev completed : Io
completed = record two_submitted { ring = (sd_irsq_handler wait_read two_submitted.ring).1 }

abbrev two_orders : Orders
two_orders = order (order no_orders (1 ∷ [])) (2 ∷ [])

start-IsFair : IsFair start no_orders
start-IsFair = record {
  in_order = refl;
  settled = inl (record { idle_state = refl; none_flies = refl; queued = (refl, refl) }, refl);
  answered = λ waits. absurd (waits refl);
  head_fits = omega arith;
  tail_fits = omega arith;
  one_waits = inl refl;
}

run :
    Reach plan start no_orders
      (pump_round (callback plan) completed)
      (order (served two_orders) (planned plan completed))
unfolding io_sched_submit enqueue set_next io_sched_issue_next sd_irsq_handler sd_call write
run =
    next
      (next
        (next (next here (submit start no_orders 1 (omega arith) tt))
          (submit one_submitted (order no_orders (1 ∷ [])) 2 (omega arith) (omega arith, tt)))
        (interrupt two_submitted two_orders wait_read refl refl))
      (pump completed two_orders (omega arith) (omega arith, (omega arith, tt), tt))

Reach-IsFair_example :
    IsFair
      (pump_round (callback plan) completed)
      (order (served two_orders) (planned plan completed))
Reach-IsFair_example = Reach-IsFair start-IsFair run
