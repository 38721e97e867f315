-- ===== src/Sched/Runs.antt =====
-- Runs of the scheduler: submissions, interrupts and rounds of the pump in any order.
use riscy_os.Base.{
  ℕ, ◌+◌, ◌%◌, ◌<◌, ◌≡◌, refl, sym, ap, ◌∙◌, ◌≢◌, ◌⊎◌, inl, inr, true, false, not, ◌&&◌, List, [],
  ◌∷◌, ◌++◌, arith, ◌==◌, if◌then◌else◌,
}
use mathlib.Core.Path.{subst}
use mathlib.Core.List.{append_assoc, append-nil}
use riscy_os.Sched.{
  idle, busy, Scheduler, io_sched_issue_next, is_idle, enqueue, io_sched_submit, irq_ring_size,
  SdState, sd_irsq_handler, Io, resume, pump_round,
}
use riscy_os.Sched.Queue.{
  Fresh, Queued, Chain-head, Queued-enqueue, issue_next-Issued, submit-busy, submit-idle, snoc_cons,
}

-- A read is in flight, the oldest of the requests.
pub record Flying (s : Scheduler) (l : List ℕ) : Type 0 where
  pub oldest : ℕ
  pub others : List ℕ
  pub all : l ≡ oldest ∷ others
  pub busy_state : s.state ≡ busy
  pub flying : s.in_flight ≡ oldest
  pub nonzero : oldest ≢ 0
  pub queued : Queued s others

pub record Resting (s : Scheduler) (l : List ℕ) : Type 0 where
  pub idle_state : s.state ≡ idle
  pub none_flies : s.in_flight ≡ 0
  pub queued : Queued s l

-- The requests of the list are those that have not been served, the oldest first.
abbrev pub Holds : Scheduler → List ℕ → Type 0
Holds s l = Resting s l ⊎ Flying s l

Queued-nonzero : (s : Scheduler) (x : ℕ) (xs : List ℕ) → Queued s (x ∷ xs) → x ≢ 0
Queued-nonzero s x xs q = (Chain-head s.reqs s.queue_tail s.queue_head x xs q).1

issue-Flying :
    (s : Scheduler) (x : ℕ) (xs : List ℕ)
    → Queued s (x ∷ xs)
    → Flying (io_sched_issue_next s) (x ∷ xs)
issue-Flying s x xs q =
    let i = issue_next-Issued s x xs q in
    record {
      oldest = x;
      others = xs;
      all = refl;
      busy_state = i.2;
      flying = i.1;
      nonzero = Queued-nonzero s x xs q;
      queued = i.0;
    }

submit_resting :
    (s : Scheduler) (p : ℕ) (l : List ℕ)
    → p ≢ 0
    → Fresh p l
    → Resting s l
    → Flying (io_sched_submit s p) (l ++ (p ∷ []))
submit_resting s p l np f r =
    let n = snoc_cons l p in
    let queued = Queued-enqueue s p l np f r.queued in
    rw (submit-idle s p r.idle_state) (
      subst (λ k. Flying (io_sched_issue_next (enqueue s p)) k) n.2
        (issue-Flying (enqueue s p) n.0 n.1 (subst (λ k. Queued (enqueue s p) k) (sym n.2) queued)))

submit-Flying :
    (s : Scheduler) (p : ℕ) (l : List ℕ)
    → p ≢ 0
    → Fresh p l
    → Flying s l
    → Flying (io_sched_submit s p) (l ++ (p ∷ []))
submit-Flying s p l np f r =
    let fresh = rw (r.all) at f in
    rw (submit-busy s p r.busy_state) (record {
      oldest = r.oldest;
      others = r.others ++ (p ∷ []);
      all = ap (λ (k : List ℕ). k ++ (p ∷ [])) r.all;
      busy_state = unfold enqueue in r.busy_state;
      flying = unfold enqueue in r.flying;
      nonzero = r.nonzero;
      queued = Queued-enqueue s p r.others np fresh.1 r.queued;
    })

submit-Holds :
    (s : Scheduler) (p : ℕ) (l : List ℕ)
    → p ≢ 0
    → Fresh p l
    → Holds s l
    → Flying (io_sched_submit s p) (l ++ (p ∷ []))
submit-Holds s p l np f (inl r) = submit_resting s p l np f r
submit-Holds s p l np f (inr r) = submit-Flying s p l np f r

-- What a callback does to the scheduler: it submits requests.
unfoldable pub submit_all : List ℕ → Scheduler → Scheduler
submit_all [] s = s
submit_all (p ∷ ps) s = submit_all ps (io_sched_submit s p)

-- Requests that may be submitted one after another where those of the list have not been served.
abbrev pub CanSubmit : List ℕ → List ℕ → Type 0
CanSubmit [] l = Unit {0}
CanSubmit (p ∷ ps) l = (p ≢ 0) × Fresh p l × CanSubmit ps (l ++ (p ∷ []))

submit_all-Holds :
    (ps : List ℕ) (s : Scheduler) (l : List ℕ)
    → CanSubmit ps l
    → Holds s l
    → Holds (submit_all ps s) (l ++ ps)
unfolding submit_all
submit_all-Holds [] s l can h = rw (append-nil l) h
submit_all-Holds (p ∷ ps) s l can h =
    let after =
      submit_all-Holds ps (io_sched_submit s p) (l ++ (p ∷ [])) can.2
        (inr (submit-Holds s p l can.0 can.1 h)) in
    subst (λ k. Holds (submit_all ps (io_sched_submit s p)) k) (append_assoc l (p ∷ []) ps) after

-- Nothing waits while nothing is in flight.
abbrev pub Settled : Scheduler → List ℕ → Type 0
Settled s l = (Resting s l × (l ≡ [])) ⊎ Flying s l

settle :
    (s : Scheduler) (l : List ℕ)
    → Holds s l
    → Settled (if is_idle s.state && not (s.queue_head == 0) then io_sched_issue_next s else s) l
settle s l (inr f) =
    let test : (is_idle s.state && not (s.queue_head == 0)) ≡ false =
      ap (λ st. is_idle st && not (s.queue_head == 0)) f.busy_state in
    rw test (inr f)
settle s [] (inl r) =
    let no_head : (s.queue_head == 0) ≡ true = ground (arith, r.queued) in
    let test : (is_idle s.state && not (s.queue_head == 0)) ≡ false =
      ap (λ st. is_idle st && not (s.queue_head == 0)) r.idle_state ∙ ap not no_head in
    rw test (inl (r, refl))
settle s (x ∷ xs) (inl r) =
    let c = Chain-head s.reqs s.queue_tail s.queue_head x xs r.queued in
    let head : (s.queue_head == 0) ≡ false = ground (arith, c.0, c.1) in
    let test : (is_idle s.state && not (s.queue_head == 0)) ≡ true =
      ap (λ st. is_idle st && not (s.queue_head == 0)) r.idle_state ∙ ap not head in
    rw test (inr (issue-Flying s x xs r.queued))

-- What has been submitted, and what of it has not been served.
pub record Orders : Type 0 where
  pub unserved : List ℕ
  pub submitted : List ℕ

abbrev pub rest : List ℕ → List ℕ
rest [] = []
rest (_ ∷ xs) = xs

abbrev pub order : Orders → List ℕ → Orders
order t ps = record { unserved = t.unserved ++ ps; submitted = t.submitted ++ ps }

abbrev pub served : Orders → Orders
served t = record t { unserved = rest t.unserved }

abbrev pub reversed : List ℕ → List ℕ
reversed [] = []
reversed (x ∷ xs) = reversed xs ++ (x ∷ [])

-- `plan` says which requests the callback of a context submits.
module _ (plan : (ctx status : ℕ) → List ℕ) where
  abbrev pub callback : (ctx status : ℕ) → Scheduler → Scheduler
  callback ctx status s = submit_all (plan ctx status) s

  -- What the callback of the request in flight submits in the next round of the pump.
  abbrev pub planned : Io → List ℕ
  planned io =
      plan (io.sched.reqs io.sched.in_flight).ctx (io.ring.status (io.ring.tail % irq_ring_size))

  -- A request comes from outside, the read in flight completes, or the pump takes a completion.
  pub data Step : Io → Orders → Io → Orders → Type 0 where
    submit :
        (io : Io) (t : Orders) (p : ℕ)
        → p ≢ 0
        → Fresh p t.unserved
        → Step io t (record io { sched = io_sched_submit io.sched p }) (order t (p ∷ []))
    interrupt :
        (io : Io) (t : Orders) (sd : SdState)
        → io.sched.state ≡ busy
        → io.ring.head ≡ io.ring.tail
        → Step io t (record io { ring = (sd_irsq_handler sd io.ring).1 }) t
    pump :
        (io : Io) (t : Orders)
        → io.ring.head ≢ io.ring.tail
        → CanSubmit (planned io) (rest t.unserved)
        → Step io t (pump_round callback io) (order (served t) (planned io))

  pub data Reach (io : Io) (t : Orders) : Io → Orders → Type 0 where
    here : Reach io t io t
    next :
        {io1 io2 : Io} {t1 t2 : Orders} → Reach io t io1 t1 → Step io1 t1 io2 t2 → Reach io t io2 t2

-- The requests are served in the order in which they are submitted; while one is unserved, the oldest
-- is in flight; and a completion waits only for a request in flight.
pub record IsFair (io : Io) (t : Orders) : Type 0 where
  pub in_order : reversed io.freed ++ t.unserved ≡ t.submitted
  pub settled : Settled io.sched t.unserved
  pub answered : io.ring.head ≢ io.ring.tail → io.sched.state ≡ busy
  pub head_fits : io.ring.head < 256
  pub tail_fits : io.ring.tail < 256
  pub one_waits : (io.ring.head ≡ io.ring.tail) ⊎ (io.ring.head ≡ (io.ring.tail + 1) % 256)

holds : {s : Scheduler} {l : List ℕ} → Settled s l → Holds s l
holds (inl (r, _)) = inl r
holds (inr f) = inr f

still_busy : (s : Scheduler) (p : ℕ) → s.state ≡ busy → (io_sched_submit s p).state ≡ busy
still_busy s p h = rw (submit-busy s p h) (unfold enqueue in h)

in_order-order :
    (fs : List ℕ) (t : Orders) (ps : List ℕ)
    → reversed fs ++ t.unserved ≡ t.submitted
    → reversed fs ++ (order t ps).unserved ≡ (order t ps).submitted
in_order-order fs t ps h =
    sym (append_assoc (reversed fs) t.unserved ps) ∙ ap (λ (l : List ℕ). l ++ ps) h

submit-IsFair :
    (io : Io) (t : Orders) (p : ℕ)
    → p ≢ 0
    → Fresh p t.unserved
    → IsFair io t
    → IsFair (record io { sched = io_sched_submit io.sched p }) (order t (p ∷ []))
submit-IsFair io t p np f i = record {
  in_order = in_order-order io.freed t (p ∷ []) i.in_order;
  settled = inr (submit-Holds io.sched p t.unserved np f (holds i.settled));
  answered = λ waits. still_busy io.sched p (i.answered waits);
  head_fits = i.head_fits;
  tail_fits = i.tail_fits;
  one_waits = i.one_waits;
}

interrupt-IsFair :
    (io : Io) (t : Orders) (sd : SdState)
    → io.sched.state ≡ busy
    → io.ring.head ≡ io.ring.tail
    → IsFair io t
    → IsFair (record io { ring = (sd_irsq_handler sd io.ring).1 }) t
unfolding sd_irsq_handler
interrupt-IsFair io t sd is_busy empty i = record {
  in_order = i.in_order;
  settled = i.settled;
  answered = λ _. is_busy;
  head_fits = omega arith;
  tail_fits = i.tail_fits;
  one_waits = inr (ap (λ (h : ℕ). (h + 1) % 256) empty);
}

busy-Flying : (s : Scheduler) (l : List ℕ) → s.state ≡ busy → Settled s l → Flying s l
busy-Flying s l b (inl (r, _)) = absurd (apart (sym b ∙ r.idle_state))
  where
    apart : busy ≡ idle → ⊥
    apart e = cc
busy-Flying s l b (inr f) = f

Queued-landed :
    (s : Scheduler) (l : List ℕ) → Queued s l → Queued (record s { in_flight = 0; state = idle }) l
Queued-landed s [] q = q
Queued-landed s (x ∷ xs) q = q

-- With its oldest request taken off, the scheduler holds the others.
landed :
    (s : Scheduler) (l : List ℕ)
    → Flying s l
    → Resting (record s { in_flight = 0; state = idle }) (rest l)
landed s l f =
    rw (f.all)
      (record { idle_state = refl; none_flies = refl; queued = Queued-landed s f.others f.queued })

resume-Settled :
    (plan : (ctx status : ℕ) → List ℕ) (s : Scheduler) (status : ℕ) (l : List ℕ)
    → Flying s l
    → CanSubmit (plan (s.reqs s.in_flight).ctx status) (rest l)
    → Settled
        (resume (callback plan) s s.in_flight status)
        (rest l ++ plan (s.reqs s.in_flight).ctx status)
unfolding resume
resume-Settled plan s status l f can =
    let ps = plan (s.reqs s.in_flight).ctx status in
    settle (submit_all ps (record s { in_flight = 0; state = idle })) (rest l ++ ps) (
      submit_all-Holds ps (record s { in_flight = 0; state = idle }) (rest l) can
        (inl (landed s l f)))

in_order-served :
    (x : ℕ) (fs : List ℕ) (t : Orders)
    → t.unserved ≡ x ∷ rest t.unserved
    → reversed fs ++ t.unserved ≡ t.submitted
    → reversed (x ∷ fs) ++ rest t.unserved ≡ t.submitted
in_order-served x fs t first h =
    append_assoc (reversed fs) (x ∷ []) (rest t.unserved)
    ∙ ap (λ (l : List ℕ). reversed fs ++ l) (sym first)
    ∙ h

Flying-first : (s : Scheduler) (l : List ℕ) → Flying s l → l ≡ s.in_flight ∷ rest l
Flying-first s l f =
    f.all
    ∙ ap (λ (x : ℕ). x ∷ f.others) (sym f.flying)
    ∙ ap (λ (xs : List ℕ). s.in_flight ∷ rest xs) (sym f.all)

pump-IsFair :
    (plan : (ctx status : ℕ) → List ℕ) (io : Io) (t : Orders)
    → io.ring.head ≢ io.ring.tail
    → CanSubmit (planned plan io) (rest t.unserved)
    → IsFair io t
    → IsFair (pump_round (callback plan) io) (order (served t) (planned plan io))
unfolding pump_round
pump-IsFair plan io t waits can i =
    let f = busy-Flying io.sched t.unserved (i.answered waits) i.settled in
    let first = Flying-first io.sched t.unserved f in
    let one : io.ring.head ≡ (io.ring.tail + 1) % 256 = elim i.one_waits [
      | inl e ↦ absurd (waits e)
      | inr e ↦ e
    ] in
    record {
      in_order =
          in_order-order (io.sched.in_flight ∷ io.freed) (served t) (planned plan io)
            (in_order-served io.sched.in_flight io.freed t first i.in_order);
      settled =
          resume-Settled plan io.sched (io.ring.status (io.ring.tail % irq_ring_size)) t.unserved f
            can;
      answered = λ more. absurd (more one);
      head_fits = i.head_fits;
      tail_fits = omega arith;
      one_waits = inl one;
    }

Step-IsFair :
    {plan : (ctx status : ℕ) → List ℕ} {io io' : Io} {t t' : Orders}
    → Step plan io t io' t'
    → IsFair io t
    → IsFair io' t'
Step-IsFair (submit io t p np f) i = submit-IsFair io t p np f i
Step-IsFair (interrupt io t sd is_busy empty) i = interrupt-IsFair io t sd is_busy empty i
Step-IsFair {plan} (pump io t waits can) i = pump-IsFair plan io t waits can i

-- In every run of submissions, completed reads and rounds of the pump, in any order, from a fair
-- state such as the one at rest: the requests freed so far and those not served yet are, in this order,
-- the requests submitted, by the callbacks too; while one is not served the oldest is in flight and the
-- others wait in the queue; and a completion waits only while a request is in flight, so that the pump
-- finds one. Interrupts come only for a read in flight that has not been answered, and a request is
-- submitted only while it is none of those not served.
pub Reach-IsFair :
    {plan : (ctx status : ℕ) → List ℕ} {start : Io} {t : Orders} {end : Io} {t' : Orders}
    → IsFair start t
    → Reach plan start t end t'
    → IsFair end t'
Reach-IsFair i here = i
Reach-IsFair i (next r st) = Step-IsFair st (Reach-IsFair i r)
