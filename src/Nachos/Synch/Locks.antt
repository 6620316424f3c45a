-- ===== src/Nachos/Synch/Locks.antt =====
-- Threads that acquire and release one lock, in any order.
use distributed_ascii_server.Prelude.{
  ℕ, suc, ◌+◌, ◌≤◌, ◌<◌, ◌≡◌, ◌≢◌, refl, ap, ◌∙◌, ◌⊎◌, inl, inr, true, false, Option, none, some,
  List, [], ◌∷◌, ◌++◌, arith, length, length-append,
}
use distributed_ascii_server.Nachos.Outcome.{ok, assert_failed}
use distributed_ascii_server.Nachos.Synch.{
  p_test, remove, v, Lock, new_lock, acquire_test, is_held_by, release,
}

-- The lock, and the threads that run or are ready to run P's test.
pub record LockState : Type 0 where
  pub lock : Lock
  pub testing : List ℕ

abbrev pub start : LockState
start = record { lock = new_lock; testing = [] }

-- A thread calls Acquire; a thread that is scheduled makes its test; a thread calls Release, and
-- the thread that V wakes is ready to test again.
pub data Step (s : LockState) : LockState → Type 0 where
  call : (t : ℕ) → Step s (record s { testing = s.testing ++ t ∷ [] })
  test :
      (before : List ℕ) (t : ℕ) (behind : List ℕ)
      → s.testing ≡ before ++ t ∷ behind
      → Step s (record { lock = (acquire_test s.lock t).0; testing = before ++ behind })
  free :
      (t : ℕ) (l : Lock) (woken : List ℕ)
      → release s.lock t ≡ ok (l, woken)
      → Step s (record { lock = l; testing = s.testing ++ woken })

pub data Reach : LockState → Type 0 where
  here : Reach start
  next : {s s' : LockState} → Reach s → Step s s' → Reach s'

abbrev pub owners : Option ℕ → ℕ
owners none = 0
owners (some t) = 1

-- One token, and no lost wake-up.
pub record IsSound (s : LockState) : Type 0 where
  pub token : s.lock.semaphore.value + owners s.lock.owner ≡ 1
  pub awake : (length s.lock.semaphore.queue ≡ 0) ⊎ (s.lock.semaphore.value ≤ length s.testing)

pub test-IsSound :
    (s : LockState) (before behind : List ℕ) (t : ℕ)
    → length s.testing ≡ length before + suc (length behind)
    → IsSound s
    → IsSound (record { lock = (acquire_test s.lock t).0; testing = before ++ behind })
unfolding acquire_test p_test
test-IsSound s before behind t size sound =
    ground
      (arith, length-append {0} before behind, length-append {0} s.lock.semaphore.queue (t ∷ []))

-- A release that passes its assertion.
pub record Released (l : Lock) (t : ℕ) (l' : Lock) (woken : List ℕ) : Type 0 where
  pub held : l.owner ≡ some t
  pub free : l'.owner ≡ none
  pub value : l'.semaphore.value ≡ l.semaphore.value + 1
  pub queue : l'.semaphore.queue ≡ (remove l.semaphore.queue).1
  pub first : woken ≡ (remove l.semaphore.queue).0

pub release-Released :
    (l l' : Lock) (t : ℕ) (woken : List ℕ) → release l t ≡ ok (l', woken) → Released l t l' woken
unfolding release is_held_by v
release-Released l l' t woken h = ground arith

length-remove :
    (q : List ℕ)
    → (length q ≡ 0) × (length (remove q).0 ≡ 0) × (length (remove q).1 ≡ 0)
      ⊎ (length (remove q).0 ≡ 1)
unfolding remove
length-remove [] = inl (refl, refl, refl)
length-remove (t ∷ q) = inr refl

pub free-IsSound :
    (s : LockState) (t : ℕ) (l : Lock) (woken : List ℕ)
    → Released s.lock t l woken
    → IsSound s
    → IsSound (record { lock = l; testing = s.testing ++ woken })
free-IsSound s t l woken r sound = ground (
  arith,
  length-append {0} s.testing woken,
  length-remove s.lock.semaphore.queue,
  ap (λ (ts : List ℕ). length ts) r.queue,
  ap (λ (ts : List ℕ). length ts) r.first,
)

Step-IsSound : {s s' : LockState} → Step s s' → IsSound s → IsSound s'
Step-IsSound {s} (call t) sound = record {
  token = sound.token;
  awake = ground (arith, length-append {0} s.testing (t ∷ []));
}
Step-IsSound {s} (test before t behind split) sound =
    test-IsSound s before behind t
      (ap (λ (ts : List ℕ). length ts) split ∙ length-append before (t ∷ behind)) sound
Step-IsSound {s} (free t l woken freed) sound =
    free-IsSound s t l woken (release-Released s.lock l t woken freed) sound

Reach-IsSound : {s : LockState} → Reach s → IsSound s
unfolding new_lock
Reach-IsSound here = record { token = refl; awake = inl refl }
Reach-IsSound (next r st) = Step-IsSound st (Reach-IsSound r)

-- While a thread owns the lock, the test of any other thread fails and leaves it the owner, and
-- the release of any other thread fails its assertion: at most one thread is between Acquire and
-- Release.
pub lock_exclusive :
    {s : LockState} (t u : ℕ)
    → Reach s
    → s.lock.owner ≡ some t
    → u ≢ t
    → ((acquire_test s.lock u).1 ≡ false)
      × ((acquire_test s.lock u).0.owner ≡ some t)
      × (release s.lock u ≡ assert_failed)
unfolding acquire_test p_test release is_held_by
lock_exclusive t u r owned other = ground (arith, Reach-IsSound r)

-- No wake-up is lost: whenever the lock is free and threads sleep on it, some thread is ready to
-- test, and its test succeeds.
pub lock_awake :
    {s : LockState} (t u : ℕ) (sleepers : List ℕ)
    → Reach s
    → s.lock.owner ≡ none
    → s.lock.semaphore.queue ≡ u ∷ sleepers
    → (0 < length s.testing) × ((acquire_test s.lock t).1 ≡ true)
unfolding acquire_test p_test
lock_awake t u sleepers r unowned asleep =
    let sound = Reach-IsSound r in ground (arith, sound, ap (λ (ts : List ℕ). length ts) asleep)
