-- ===== src/Sched/Pump.antt =====
-- The completion ring, the interrupt handler and the pump.
use riscy_os.Base.{
  ℕ, zero, suc, ◌+◌, ◌-◌, ◌%◌, ◌<◌, ◌≡◌, refl, ◌≢◌, ◌⊎◌, inl, inr, Bool, true, false, not, ◌&&◌,
  none, ◌∷◌, arith, ◌==◌, if◌then◌else◌, Bool-cases, write,
}
use riscy_os.Sched.{
  SchedState, idle, busy, Scheduler, io_sched_issue_next, is_idle, irq_ring_size, Ring, SdState,
  sd_idle, sd_error, nothing, sd_call, sd_irsq_handler, Io, resume, pump_round, io_sched_pump,
}

-- The completions that wait in the ring, as the two uint8_t indices count them.
abbrev pub waiting : Ring → ℕ
waiting r = (r.head + 256 - r.tail) % 256

-- The handler adds one completion with status 0 behind those that wait and keeps these, if fewer
-- than eight wait.
pub sd_irsq_handler_adds :
    (sd : SdState) (r : Ring)
    → r.head < 256
    → r.tail < 256
    → waiting r < irq_ring_size
    → let r' = (sd_irsq_handler sd r).1 in
      (waiting r' ≡ waiting r + 1)
      × (r'.tail ≡ r.tail)
      × (r'.status ((r'.tail + waiting r) % irq_ring_size) ≡ 0)
      × ((k : ℕ)
          → k < waiting r
          → r'.status ((r'.tail + k) % irq_ring_size) ≡ r.status ((r.tail + k) % irq_ring_size))
unfolding sd_irsq_handler write
sd_irsq_handler_adds sd r hh ht room = (
  omega arith,
  refl,
  (let e : (r.tail + waiting r) % 8 ≡ r.head % 8 = omega arith in ground arith),
  λ k h. let e : (r.tail + k) % 8 ≢ r.head % 8 = omega arith in ground arith,
)

ring_not_empty :
    (r : Ring) → r.head < 256 → r.head ≡ r.tail → ((r.head + 1) % 256 == r.tail) ≡ false
ring_not_empty r h e = ground arith

-- An interrupt that no read or write waits for makes the handler call nothing, yet it adds a
-- completion: with an empty ring and no request in flight the next pump calls through a NULL
-- request, whatever the callback and the fuel.
pub io_sched_pump_spurious :
    (callback : ℕ → ℕ → Scheduler → Scheduler) (fuel : ℕ) (sd : SdState) (io : Io)
    → (sd ≡ sd_idle) ⊎ (sd ≡ sd_error)
    → io.ring.head < 256
    → io.ring.head ≡ io.ring.tail
    → io.sched.in_flight ≡ 0
    → ((sd_irsq_handler sd io.ring).0 ≡ nothing)
      × (io_sched_pump callback fuel (record io { ring = (sd_irsq_handler sd io.ring).1 }) ≡ none)
unfolding sd_irsq_handler io_sched_pump
io_sched_pump_spurious callback zero sd io which low empty none_flies =
    (unfold sd_call in ground arith, rw (ring_not_empty io.ring low empty))
io_sched_pump_spurious callback (suc fuel) sd io which low empty none_flies =
    let null : (io.sched.in_flight == 0) ≡ true = ground arith in
    (unfold sd_call in ground arith, rw (ring_not_empty io.ring low empty, null))

issue_next-busy : (s : Scheduler) → s.queue_head ≢ 0 → (io_sched_issue_next s).state ≡ busy
unfolding io_sched_issue_next
issue_next-busy s h = let e : (s.queue_head == 0) ≡ false = ground arith in rw e

busy_or_empty :
    (s : Scheduler)
    → let s' = (if is_idle s.state && not (s.queue_head == 0) then io_sched_issue_next s else s) in
      (s'.state ≡ busy) ⊎ (s'.queue_head ≡ 0)
busy_or_empty s = elim (Bool-cases (is_idle s.state && not (s.queue_head == 0))) [
  | inl goes ↦
      rw goes (inl (issue_next-busy s (λ e. cc (no_head (is_idle s.state) s.queue_head e goes))))
  | inr stays ↦ rw stays (rest s.state refl stays)
]
  where
    no_head : (b : Bool) (h : ℕ) → h ≡ 0 → (b && not (h == 0)) ≡ true → false ≡ true
    no_head b h e t = ground arith

    rest :
        (st : SchedState)
        → s.state ≡ st
        → (is_idle s.state && not (s.queue_head == 0)) ≡ false
        → (s.state ≡ busy) ⊎ (s.queue_head ≡ 0)
    rest busy e t = inl e
    rest idle e t = inr (head_zero (rw e at t))
      where
        head_zero : (is_idle idle && not (s.queue_head == 0)) ≡ false → s.queue_head ≡ 0
        head_zero h = ground arith

resume_busy :
    (callback : ℕ → ℕ → Scheduler → Scheduler) (s : Scheduler) (req status : ℕ)
    → ((resume callback s req status).state ≡ busy)
      ⊎ ((resume callback s req status).queue_head ≡ 0)
unfolding resume
resume_busy callback s req status =
    busy_or_empty (callback (s.reqs req).ctx status (record s { in_flight = 0; state = idle }))

-- A round of the pump frees the request that was in flight and takes one completion off the ring;
-- whatever the callback submits, it leaves the scheduler busy, or idle with an empty queue.
pub pump_round_correct :
    (callback : ℕ → ℕ → Scheduler → Scheduler) (io : Io)
    → io.ring.head < 256
    → io.ring.tail < 256
    → io.ring.head ≢ io.ring.tail
    → let io' = pump_round callback io in
      (waiting io'.ring + 1 ≡ waiting io.ring)
      × (io'.freed ≡ io.sched.in_flight ∷ io.freed)
      × ((io'.sched.state ≡ busy) ⊎ (io'.sched.queue_head ≡ 0))
unfolding pump_round
pump_round_correct callback io hh ht ne = (
  omega arith,
  refl,
  resume_busy callback io.sched io.sched.in_flight (io.ring.status (io.ring.tail % irq_ring_size)),
)
