-- ===== src/Nachos/Synch/Barriers.antt =====
-- Threads that meet at a barrier, in any order of their steps.
pub mod Rounds
use distributed_ascii_server.Prelude.{
  ℕ, suc, ◌+◌, ◌*◌, ◌<◌, ◌≡◌, ◌≢◌, refl, sym, ap, ◌∙◌, subst, inl, inr, Bool, true, false, ◌||◌,
  none, some, List, [], ◌∷◌, ◌++◌, arith, ◌==◌, if◌then◌else◌, length, length-append, Bool-cases,
  ==→eq, ==→ne, eq→==,
}
use distributed_ascii_server.Nachos.Outcome.{ok}
use distributed_ascii_server.Nachos.Synch.{
  v, remove, Lock, new_lock, acquire_test, is_held_by, release, condition_wait, broadcast,
  broadcast_loop, Barrier, new_barrier, barrier_enter, barrier_leave,
}
use distributed_ascii_server.Nachos.Synch.Locks.{
  LockState, IsSound, Released, release-Released, test-IsSound, free-IsSound,
}

abbrev pub is_member : ℕ → List ℕ → Bool
is_member t [] = false
is_member t (u ∷ us) = u == t || is_member t us

-- The barrier, the threads that run or are ready to run the test of P in an Acquire of its mutex,
-- those that have been let go and have not left Wait, and how many have entered and left.
pub record Meeting : Type 0 where
  pub barrier : Barrier
  pub testing : List ℕ
  pub back : List ℕ
  pub entered : ℕ
  pub left : ℕ

abbrev pub start : ℕ → Meeting
start n = record { barrier = new_barrier n; testing = []; back = []; entered = 0; left = 0 }

-- The thread is in a call of Wait.
abbrev pub is_inside : Meeting → ℕ → Bool
is_inside s t =
    is_member t s.testing
    || (is_member t s.back
        || (is_member t s.barrier.condition
            || (is_member t s.barrier.mutex.semaphore.queue || is_held_by s.barrier.mutex t)))

abbrev pub after_enter : Meeting → ℕ → Barrier × (List ℕ × Bool) → Meeting
after_enter s t r = record {
  barrier = r.0;
  testing = s.testing ++ r.1.0;
  back = if r.1.1 then s.back ++ (r.1.0 ++ t ∷ []) else s.back;
  entered = s.entered + 1;
  left = s.left;
}

-- A thread calls Wait; a thread that is scheduled makes its test of the mutex; the thread that has
-- the mutex enters, if it has not been let go, and leaves if it has. Threads that V or Broadcast
-- makes ready test the mutex next, the woken ones for the Acquire in Condition::Wait.
pub data Step (s : Meeting) : Meeting → Type 0 where
  call : (t : ℕ) → is_inside s t ≡ false → Step s (record s { testing = s.testing ++ t ∷ [] })
  test :
      (before : List ℕ) (t : ℕ) (behind : List ℕ)
      → s.testing ≡ before ++ t ∷ behind
      → Step s (record s {
        barrier = record s.barrier { mutex = (acquire_test s.barrier.mutex t).0 };
        testing = before ++ behind;
      })
  enter :
      (t : ℕ) (r : Barrier × (List ℕ × Bool))
      → s.barrier.mutex.owner ≡ some t
      → is_member t s.back ≡ false
      → barrier_enter s.barrier t ≡ ok r
      → Step s (after_enter s t r)
  leave :
      (before : List ℕ) (t : ℕ) (behind : List ℕ) (b : Barrier) (woken : List ℕ)
      → s.back ≡ before ++ t ∷ behind
      → barrier_leave s.barrier t ≡ ok (b, woken)
      → Step s (record {
        barrier = b;
        testing = s.testing ++ woken;
        back = before ++ behind;
        entered = s.entered;
        left = s.left + 1;
      })

pub data Reach (n : ℕ) : Meeting → Type 0 where
  here : Reach n (start n)
  next : {s s' : Meeting} → Reach n s → Step s s' → Reach n s'
