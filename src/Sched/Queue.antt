-- ===== src/Sched/Queue.antt =====
-- The linked queue of requests as a list.
use riscy_os.Base.{ℕ, ◌≡◌, refl, sym, ap, ◌∙◌, ◌≢◌, true, false, List, [], ◌∷◌, ◌++◌, arith, ◌==◌}
use mathlib.Core.Path.{subst}
use riscy_os.Sched.{
  Request, idle, busy, Scheduler, set_next, io_sched_issue_next, is_idle, enqueue, io_sched_submit,
}

-- `p` is none of the pointers.
abbrev pub Fresh : ℕ → List ℕ → Type 0
Fresh p [] = Unit
Fresh p (x ∷ xs) = (x ≢ p) × Fresh p xs

-- From `h` the links lead through the requests `x ∷ xs`, the last of which is `tail`.
abbrev pub Chain : (ℕ → Request) → (tail h x : ℕ) → List ℕ → Type 0
Chain reqs tail h x [] = (h ≡ x) × (x ≢ 0) × (tail ≡ x) × ((reqs x).next ≡ 0)
Chain reqs tail h x (y ∷ ys) = (h ≡ x) × (x ≢ 0) × (x ≢ tail) × Chain reqs tail (reqs x).next y ys

-- The queue of the scheduler holds the requests of the list, oldest first.
abbrev pub Queued : Scheduler → List ℕ → Type 0
Queued s [] = (s.queue_head ≡ 0) × (s.queue_tail ≡ 0)
Queued s (x ∷ xs) = Chain s.reqs s.queue_tail s.queue_head x xs

Chain-tail_ne_zero :
    (reqs : ℕ → Request) (tail h x : ℕ) (xs : List ℕ) → Chain reqs tail h x xs → tail ≢ 0
Chain-tail_ne_zero reqs tail h x [] c = omega arith
Chain-tail_ne_zero reqs tail h x (y ∷ ys) c = Chain-tail_ne_zero reqs tail (reqs x).next y ys c.3

-- Linking a new request behind the tail.
Chain-append :
    (reqs : ℕ → Request) (p tail h x : ℕ) (xs : List ℕ)
    → p ≢ 0
    → Fresh p (x ∷ xs)
    → tail ≢ p
    → Chain reqs tail h x xs
    → Chain (set_next (set_next reqs p 0) tail p) p h x (xs ++ p ∷ [])
unfolding set_next
Chain-append reqs p tail h x [] np f nt c = (c.0, c.1, f.0, (ground arith, np, refl, ground arith))
Chain-append reqs p tail h x (y ∷ ys) np f nt c =
    let same : (set_next (set_next reqs p 0) tail p x).next ≡ (reqs x).next =
      unfold set_next in ground arith in
    (c.0, c.1, f.0, rw same (Chain-append reqs p tail (reqs x).next y ys np f.1 nt c.3))

pub Chain-head :
    (reqs : ℕ → Request) (tail h x : ℕ) (xs : List ℕ) → Chain reqs tail h x xs → (h ≡ x) × (x ≢ 0)
Chain-head reqs tail h x [] c = (c.0, c.1)
Chain-head reqs tail h x (y ∷ ys) c = (c.0, c.1)

tail-Fresh :
    (reqs : ℕ → Request) (p tail h x : ℕ) (xs : List ℕ)
    → Chain reqs tail h x xs
    → Fresh p (x ∷ xs)
    → tail ≢ p
tail-Fresh reqs p tail h x [] c f = λ e. f.0 (sym c.2 ∙ e)
tail-Fresh reqs p tail h x (y ∷ ys) c f = tail-Fresh reqs p tail (reqs x).next y ys c.3 f.1

pub Queued-enqueue :
    (s : Scheduler) (p : ℕ) (xs : List ℕ)
    → p ≢ 0
    → Fresh p xs
    → Queued s xs
    → Queued (enqueue s p) (xs ++ p ∷ [])
unfolding enqueue
Queued-enqueue s p [] np f q =
    let empty : (s.queue_tail == 0) ≡ true = ground arith in
    rw empty (refl, np, refl, unfold set_next in ground arith)
Queued-enqueue s p (x ∷ xs) np f q =
    let some_tail : (s.queue_tail == 0) ≡ false =
      ground (arith, Chain-tail_ne_zero s.reqs s.queue_tail s.queue_head x xs q) in
    rw some_tail (
      Chain-append s.reqs p s.queue_tail s.queue_head x xs np f
        (tail-Fresh s.reqs p s.queue_tail s.queue_head x xs q f) q)

-- The oldest request is issued: it is in flight, its sector is read, the others wait.
abbrev pub Issued : Scheduler → ℕ → List ℕ → Scheduler → Type 0
Issued s x xs s' =
    Queued s' xs
    × (s'.in_flight ≡ x)
    × (s'.state ≡ busy)
    × (s'.started ≡ (s.reqs x).lba ∷ s.started)

pub issue_next-Issued :
    (s : Scheduler) (x : ℕ) (xs : List ℕ)
    → Queued s (x ∷ xs)
    → Issued s x xs (io_sched_issue_next s)
unfolding io_sched_issue_next
issue_next-Issued s x [] q =
    let there : (s.queue_head == 0) ≡ false = ground arith in
    let last : ((s.reqs s.queue_head).next == 0) ≡ true = rw q.0 (ground (arith, q.3)) in
    rw (there, last) ((rw q.0 q.3, refl), q.0, refl, ap (λ (k : ℕ). (s.reqs k).lba ∷ s.started) q.0)
issue_next-Issued s x (y ∷ ys) q =
    let there : (s.queue_head == 0) ≡ false = ground arith in
    let k = Chain-head s.reqs s.queue_tail (s.reqs x).next y ys q.3 in
    let more : ((s.reqs s.queue_head).next == 0) ≡ false = rw q.0 (rw k.0 (ground (arith, k.1))) in
    rw (there, more)
      (
        subst (λ a. Chain s.reqs s.queue_tail (s.reqs a).next y ys) (sym q.0) q.3,
        q.0,
        refl,
        ap (λ (a : ℕ). (s.reqs a).lba ∷ s.started) q.0,
      )

pub submit-busy : (s : Scheduler) (p : ℕ) → s.state ≡ busy → io_sched_submit s p ≡ enqueue s p
unfolding io_sched_submit
submit-busy s p h =
    let e : is_idle (enqueue s p).state ≡ false = unfold enqueue in ap is_idle h in rw e

pub submit-idle :
    (s : Scheduler) (p : ℕ)
    → s.state ≡ idle
    → io_sched_submit s p ≡ io_sched_issue_next (enqueue s p)
unfolding io_sched_submit
submit-idle s p h =
    let e : is_idle (enqueue s p).state ≡ true = unfold enqueue in ap is_idle h in rw e

pub snoc_cons : (xs : List ℕ) (p : ℕ) → (x : ℕ) × (rest : List ℕ) × (x ∷ rest ≡ xs ++ p ∷ [])
snoc_cons [] p = (p, [], refl)
snoc_cons (x ∷ xs) p = (x, xs ++ p ∷ [], refl)

-- A request that is submitted to a busy scheduler goes behind the requests that wait, and the one
-- in flight and the reads started stay as they are.
pub io_sched_submit-busy :
    (s : Scheduler) (p : ℕ) (xs : List ℕ)
    → p ≢ 0
    → Fresh p xs
    → Queued s xs
    → s.state ≡ busy
    → Queued (io_sched_submit s p) (xs ++ p ∷ [])
      × ((io_sched_submit s p).state ≡ busy)
      × ((io_sched_submit s p).in_flight ≡ s.in_flight)
      × ((io_sched_submit s p).started ≡ s.started)
io_sched_submit-busy s p xs np f q h = rw (submit-busy s p h) (
  Queued-enqueue s p xs np f q,
  unfold enqueue in h,
  unfold enqueue in refl,
  unfold enqueue in refl,
)

-- A request that is submitted to an idle scheduler goes behind the requests that wait, and the
-- oldest of them all is issued: it leaves the queue, is in flight, and the read of its sector is
-- started.
pub io_sched_submit-idle :
    (s : Scheduler) (p : ℕ) (xs : List ℕ)
    → p ≢ 0
    → Fresh p xs
    → Queued s xs
    → s.state ≡ idle
    → (x : ℕ) × (rest : List ℕ) × (x ∷ rest ≡ xs ++ p ∷ [])
      × Queued (io_sched_submit s p) rest
      × ((io_sched_submit s p).in_flight ≡ x)
      × ((io_sched_submit s p).state ≡ busy)
      × ((io_sched_submit s p).started ≡ ((enqueue s p).reqs x).lba ∷ s.started)
io_sched_submit-idle s p xs np f q h =
    let n = snoc_cons xs p in
    let queued = Queued-enqueue s p xs np f q in
    let i =
      issue_next-Issued (enqueue s p) n.0 n.1
        (subst (λ l. Queued (enqueue s p) l) (sym n.2) queued) in
    rw (submit-idle s p h) (n.0, n.1, n.2, i.0, i.1, i.2, i.3 ∙ unfold enqueue in refl)
