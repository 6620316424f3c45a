-- ===== src/Tests/Nachos.antt =====
-- The kernel's locks at work.
use distributed_ascii_server.Prelude.{
  ◌<◌, ◌≡◌, refl, true, false, none, some, [], ◌∷◌, arith, length,
}
use distributed_ascii_server.Nachos.Outcome.{assert_failed}
use distributed_ascii_server.Nachos.Synch.{
  v, p_test, remove, new_lock, acquire_test, is_held_by, release,
}
use distributed_ascii_server.Nachos.Synch.Locks.{
  LockState, call, test, free, Reach, here, next, lock_exclusive, lock_awake,
}

-- Thread 1 has the lock; threads 2 and 3 sleep; then thread 1 releases it.
abbrev one_in : LockState
one_in = record { lock = (acquire_test new_lock 1).0; testing = [] }

abbrev two_asleep : LockState
two_asleep = record {
  lock = (acquire_test (acquire_test (acquire_test new_lock 1).0 2).0 3).0;
  testing = [];
}

abbrev released : LockState
released = record {
  lock = record { semaphore = record { value = 1; queue = 3 ∷ [] }; owner = none };
  testing = 2 ∷ [];
}

one_in-Reach : Reach one_in
one_in-Reach = next (next here (call 1)) (test [] 1 [] refl)

two_asleep-Reach : Reach two_asleep
two_asleep-Reach =
    next (next (next (next one_in-Reach (call 2)) (test [] 2 [] refl)) (call 3)) (test [] 3 [] refl)

released-Reach : Reach released
unfolding release is_held_by v remove acquire_test p_test new_lock
released-Reach = next two_asleep-Reach (free 1 released.lock (2 ∷ []) refl)

owned : one_in.lock.owner ≡ some 1
unfolding acquire_test p_test new_lock
owned = refl

lock_exclusive_example :
    ((acquire_test one_in.lock 2).1 ≡ false)
    × ((acquire_test one_in.lock 2).0.owner ≡ some 1)
    × (release one_in.lock 2 ≡ assert_failed)
lock_exclusive_example = lock_exclusive 1 2 one_in-Reach owned (omega arith)

lock_awake_example : (0 < length released.testing) × ((acquire_test released.lock 2).1 ≡ true)
lock_awake_example = lock_awake 2 3 [] released-Reach refl refl
