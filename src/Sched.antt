-- ===== src/Sched.antt =====
-- The scheduler of disk reads, kernel/io/io_scheduler.c, with its ring of completions
-- (include/io/io_sd_ring.h) and the interrupt handler drivers/spi/sd_irsq.c.
-- Requests are reached by pointer: `reqs` gives the request at an address, and 0 is NULL.
pub mod Queue
pub mod Pump
pub mod Runs
mod Tests
use riscy_os.Base.{
  ℕ, zero, suc, ◌+◌, ◌-◌, ◌*◌, ◌/◌, ◌%◌, ◌^◌, ◌≤◌, ◌<◌, ◌≡◌, refl, sym, ap, ◌∙◌, ◌≢◌, ◌↔◌, ◌⊎◌, inl,
  inr, Bool, true, false, not, ◌&&◌, ◌||◌, Option, none, some, List, [], ◌∷◌, ◌++◌, arith, ltb, leb,
  ◌==◌, ==_iff, if◌then◌else◌, Bool-cases, some_pair, length, get_or, set, length-append,
  length-set, get_or-set_self, get_or-set_ne, Mem, write, write_self, write_ne, u32_mod, add32,
  sub32,
}

-- io_sched_req_t; the callback and its context stand for whom the machine behind them belongs to.
pub record Request : Type 0 where
  pub lba : ℕ
  pub ctx : ℕ
  pub next : ℕ

-- sched_state_t
pub data SchedState : Type 0 where
  idle busy : SchedState

-- io_scheduler_t with the requests that it points to, and the sectors whose read it has started.
pub record Scheduler : Type 0 where
  pub queue_head : ℕ
  pub queue_tail : ℕ
  pub in_flight : ℕ
  pub state : SchedState
  pub reqs : ℕ → Request
  pub started : List ℕ

-- `req->next = q`
unfoldable pub set_next : (ℕ → Request) → ℕ → ℕ → ℕ → Request
set_next reqs p q x = if x == p then record (reqs p) { next = q } else reqs x

unfoldable pub io_sched_issue_next : Scheduler → Scheduler
io_sched_issue_next s =
    let req = s.queue_head in
    let next = (s.reqs req).next in
    if req == 0 then s else record s {
      queue_head = next;
      queue_tail = if next == 0 then 0 else s.queue_tail;
      in_flight = req;
      state = busy;
      started = (s.reqs req).lba ∷ s.started;
    }

abbrev pub is_idle : SchedState → Bool
is_idle idle = true
is_idle busy = false

-- The queue with `req` at its end.
unfoldable pub enqueue : Scheduler → ℕ → Scheduler
unfolding set_next
enqueue s req =
    let cleared = set_next s.reqs req 0 in
    record s {
      queue_head = if not (s.queue_tail == 0) then s.queue_head else req;
      queue_tail = req;
      reqs = if not (s.queue_tail == 0) then set_next cleared s.queue_tail req else cleared;
    }

unfoldable pub io_sched_submit : Scheduler → ℕ → Scheduler
io_sched_submit s req =
    let s' = enqueue s req in if is_idle s'.state then io_sched_issue_next s' else s'

abbrev pub irq_ring_size : ℕ
irq_ring_size = 8

-- irq_completion_ring_t; head and tail are uint8_t, and `& (IRQ_RING_SIZE - 1)` is `% 8`.
pub record Ring : Type 0 where
  pub head : ℕ
  pub tail : ℕ
  pub status : ℕ → ℕ

-- SD_STATE_T, and what the handler calls for it.
pub data SdState : Type 0 where
  sd_idle wait_read wait_write sd_error : SdState

pub data SdCall : Type 0 where
  tail_read tail_write nothing : SdCall

-- The switch of the handler.
unfoldable pub sd_call : SdState → SdCall
sd_call wait_read = tail_read
sd_call wait_write = tail_write
sd_call _ = nothing

unfoldable pub sd_irsq_handler : SdState → Ring → SdCall × Ring
unfolding sd_call
sd_irsq_handler sd r = (
  sd_call sd,
  record r { status = write r.status (r.head % irq_ring_size) 0; head = (r.head + 1) % 256 },
)

-- The scheduler with its ring, and the requests that `io_sched_pump` has freed.
pub record Io : Type 0 where
  pub sched : Scheduler
  pub ring : Ring
  pub freed : List ℕ

module _ (callback : (ctx status : ℕ) → Scheduler → Scheduler) where
  -- What a round of `io_sched_pump` does with the request that was in flight and its status.
  unfoldable pub resume : Scheduler → (req status : ℕ) → Scheduler
  unfolding io_sched_issue_next
  resume s req status =
      let s' = callback (s.reqs req).ctx status (record s { in_flight = 0; state = idle }) in
      if is_idle s'.state && not (s'.queue_head == 0) then io_sched_issue_next s' else s'

  -- A round of `io_sched_pump` on a ring that is not empty.
  unfoldable pub pump_round : Io → Io
  unfolding resume
  pump_round io = record {
    sched = resume io.sched io.sched.in_flight (io.ring.status (io.ring.tail % irq_ring_size));
    ring = record (io.ring) { tail = (io.ring.tail + 1) % 256 };
    freed = io.sched.in_flight ∷ io.freed;
  }

  -- The loop of `io_sched_pump`, on fuel; `none` is a call through a NULL request, or no fuel.
  unfoldable pub io_sched_pump : ℕ → Io → Option Io
  unfolding pump_round
  io_sched_pump zero io = if io.ring.head == io.ring.tail then some io else none
  io_sched_pump (suc fuel) io =
      let rest = io_sched_pump fuel (pump_round io) in
      if io.ring.head == io.ring.tail
      then some io
      else if io.sched.in_flight == 0
      then none
      else rest
