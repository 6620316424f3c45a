-- ===== src/Nachos/Synch.antt =====
-- threads/synch.cc: semaphores, locks, condition variables and barriers. Each routine runs with
-- interrupts off, so it is atomic up to a call of Sleep; a thread that wakes runs on from there. A
-- thread is a number, and the current thread is an argument.
pub mod Locks
pub mod Barriers
use distributed_ascii_server.Prelude.{
  ℕ, zero, suc, ◌+◌, ◌-◌, Bool, true, false, Option, none, some, List, [], ◌∷◌, ◌++◌, ◌==◌,
  if◌then◌else◌,
}
use distributed_ascii_server.Nachos.Outcome.{Outcome, ok, assert_failed, ◌>>=◌}

pub record Semaphore : Type 0 where
  pub value : ℕ
  pub queue : List ℕ

unfoldable pub new_semaphore : ℕ → Semaphore
new_semaphore initial_value = record { value = initial_value; queue = [] }

-- One test of the loop of P: the thread takes a unit and goes on (true), or queues and sleeps. When
-- it is woken it tests again.
unfoldable pub p_test : Semaphore → ℕ → Semaphore × Bool
p_test s thread =
    if s.value == 0
    then (record s { queue = s.queue ++ thread ∷ [] }, false)
    else (record s { value = s.value - 1 }, true)

-- queue->Remove()
unfoldable pub remove : List ℕ → List ℕ × List ℕ
remove [] = ([], [])
remove (t ∷ ts) = (t ∷ [], ts)

-- V, and the threads that it makes ready: the first that waits, if there is one.
unfoldable pub v : Semaphore → Semaphore × List ℕ
v s = (record { value = s.value + 1; queue = (remove s.queue).1 }, (remove s.queue).0)

-- Destroy makes every waiting thread ready.
unfoldable pub destroy : Semaphore → Semaphore × List ℕ
destroy s = (record s { queue = [] }, s.queue)

pub record Lock : Type 0 where
  pub semaphore : Semaphore
  pub owner : Option ℕ

unfoldable pub new_lock : Lock
new_lock = record { semaphore = record { value = 1; queue = [] }; owner = none }

-- Acquire, from one test of P to the next: the owner is set only when P returns.
unfoldable pub acquire_test : Lock → ℕ → Lock × Bool
acquire_test l thread =
    let tested = p_test l.semaphore thread in
    if tested.1
    then (record { semaphore = tested.0; owner = some thread }, true)
    else (record l { semaphore = tested.0 }, false)

unfoldable pub is_held_by : Lock → ℕ → Bool
is_held_by l thread = elim l.owner [ none ↦ false | some t ↦ t == thread ]

unfoldable pub release : Lock → ℕ → Outcome (Lock × List ℕ)
release l thread =
    if is_held_by l thread
    then ok (record { semaphore = (v l.semaphore).0; owner = none }, (v l.semaphore).1)
    else assert_failed

-- A condition variable is the queue of its waiters. Wait up to Sleep: the lock is released, its
-- first waiter made ready, and the caller queues; a woken caller goes on to Acquire, by acquire_test.
unfoldable pub condition_wait : List ℕ → Lock → ℕ → Outcome (List ℕ × (Lock × List ℕ))
condition_wait queue l thread = release l thread >>= λ released. ok (queue ++ thread ∷ [], released)

unfoldable pub signal : List ℕ → Lock → ℕ → Outcome (List ℕ × List ℕ)
signal queue l thread =
    if is_held_by l thread then ok ((remove queue).1, (remove queue).0) else assert_failed

-- Broadcast: the threads made ready, in the order in which they queued.
unfoldable pub broadcast_loop : List ℕ → List ℕ
broadcast_loop [] = []
broadcast_loop (t ∷ ts) = t ∷ broadcast_loop ts

unfoldable pub broadcast : List ℕ → Lock → ℕ → Outcome (List ℕ × List ℕ)
broadcast queue l thread =
    if is_held_by l thread then ok ([], broadcast_loop queue) else assert_failed

pub record Barrier : Type 0 where
  pub max_count : ℕ
  pub current_count : ℕ
  pub mutex : Lock
  pub condition : List ℕ

unfoldable pub new_barrier : ℕ → Barrier
new_barrier count = record {
  max_count = count;
  current_count = 0;
  mutex = new_lock;
  condition = [];
}

-- Barrier::Wait from Acquire to Release, for the last thread of a round, or to Sleep, for the others:
-- the barrier, the threads that are made ready, and whether the caller goes on.
unfoldable pub barrier_enter : Barrier → ℕ → Outcome (Barrier × (List ℕ × Bool))
barrier_enter b thread =
    let count = b.current_count + 1 in
    if count == b.max_count
    then (broadcast b.condition b.mutex thread >>= λ woken.
        ok (record b { current_count = 0; condition = woken.0 }, (woken.1, true)))
    else (condition_wait b.condition b.mutex thread >>= λ waiting. ok (
      record b { current_count = count; mutex = waiting.1.0; condition = waiting.0 },
      (waiting.1.1, false),
    ))

-- The end of Barrier::Wait, for a thread that has the mutex: the last of its round, or one that was
-- woken and has acquired it again.
unfoldable pub barrier_leave : Barrier → ℕ → Outcome (Barrier × List ℕ)
barrier_leave b thread =
    release b.mutex thread >>= λ released. ok (record b { mutex = released.0 }, released.1)
