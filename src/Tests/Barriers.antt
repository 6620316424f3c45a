-- ===== src/Tests/Barriers.antt =====
-- Two threads meet at a barrier.
use distributed_ascii_server.Prelude.{
  ℕ, ◌+◌, ◌*◌, ◌<◌, ◌≤◌, ◌≡◌, ◌⊎◌, refl, true, false, [], ◌∷◌, arith, length,
}
use distributed_ascii_server.Nachos.Synch.{
  v, p_test, remove, new_lock, acquire_test, is_held_by, release, condition_wait, broadcast,
  broadcast_loop, new_barrier, barrier_enter,
}
use distributed_ascii_server.Nachos.Synch.Locks.{owners}
use distributed_ascii_server.Nachos.Synch.Barriers.{
  Meeting, start, after_enter, call, test, enter, Reach, here, next,
}
use distributed_ascii_server.Nachos.Synch.Barriers.Rounds.{Goes, barrier_rounds}

-- Thread 5 comes and waits; thread 6 comes and lets it go.
abbrev waits : Meeting
waits =
    after_enter
      (record (start 2) {
        barrier = record (new_barrier 2) { mutex = (acquire_test new_lock 5).0 };
      })
      5 (record (new_barrier 2) { current_count = 1; condition = 5 ∷ [] }, ([], false))

abbrev held_by_6 : Meeting
held_by_6 = record waits {
  barrier = record waits.barrier { mutex = (acquire_test waits.barrier.mutex 6).0 };
}

abbrev both : Meeting
both =
    after_enter held_by_6 6
      (record held_by_6.barrier { current_count = 0; condition = [] }, (5 ∷ [], true))

waits-Reach : Reach 2 waits
unfolding barrier_enter condition_wait release v remove acquire_test p_test is_held_by new_lock
    new_barrier
waits-Reach = next (next (next here (call 5 refl)) (test [] 5 [] refl)) (enter 5 _ refl refl refl)

both-Reach : Reach 2 both
unfolding barrier_enter broadcast broadcast_loop release v remove acquire_test p_test is_held_by
    new_lock new_barrier
both-Reach =
    next (next (next waits-Reach (call 6 refl)) (test [] 6 [] refl)) (enter 6 _ refl refl refl)

barrier_rounds_example :
    (k : ℕ) × (both.entered ≡ k * 2 + length both.barrier.condition)
    × (length both.barrier.condition < 2)
    × (both.left + length both.back ≡ k * 2)
    × Goes both.barrier both.barrier.mutex.owner
    × (both.barrier.mutex.semaphore.value + owners both.barrier.mutex.owner ≡ 1)
    × ((length both.barrier.mutex.semaphore.queue ≡ 0)
        ⊎ (both.barrier.mutex.semaphore.value ≤ length both.testing))
barrier_rounds_example = barrier_rounds (omega arith) both-Reach
