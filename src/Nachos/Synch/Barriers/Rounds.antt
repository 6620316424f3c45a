-- ===== src/Nachos/Synch/Barriers/Rounds.antt =====
-- How many threads have entered and left a barrier, in every order of their steps.
use distributed_ascii_server.Prelude.{
  ℕ, suc, ◌+◌, ◌*◌, ◌<◌, ◌≡◌, ◌≢◌, refl, ap, ◌∙◌, subst, inl, inr, Bool, true, false, Option, none,
  some, ◌⊎◌, ◌≤◌, List, [], ◌∷◌, ◌++◌, arith, ◌==◌, if◌then◌else◌, length, length-append,
  Bool-cases, ==→eq, ==→ne, eq→==,
}
use distributed_ascii_server.Nachos.Outcome.{ok, went_through}
use distributed_ascii_server.Nachos.Synch.{
  v, Lock, new_lock, acquire_test, is_held_by, release, condition_wait, broadcast, broadcast_loop,
  Barrier, new_barrier, barrier_enter, barrier_leave,
}
use distributed_ascii_server.Nachos.Synch.Locks.{
  LockState, IsSound, release-Released, test-IsSound, free-IsSound, owners,
}
use distributed_ascii_server.Nachos.Synch.Barriers.{
  Meeting, after_enter, Step, call, test, enter, leave, Reach, here, next,
}

abbrev lock_of : Meeting → LockState
lock_of s = record { lock = s.barrier.mutex; testing = s.testing }

record IsMeeting (n : ℕ) (s : Meeting) : Type 0 where
  pub sound : IsSound (lock_of s)
  pub size : s.barrier.max_count ≡ n
  pub counted : s.barrier.current_count ≡ length s.barrier.condition
  pub below : s.barrier.current_count < n
  pub rounds :
      (k : ℕ) × (s.entered ≡ k * n + s.barrier.current_count) × (s.left + length s.back ≡ k * n)

broadcast_loop_lem : (ts : List ℕ) → broadcast_loop ts ≡ ts
unfolding broadcast_loop
broadcast_loop_lem [] = refl
broadcast_loop_lem (t ∷ ts) = rw (broadcast_loop_lem ts) refl

abbrev released : Lock → Lock
released l = record { semaphore = (v l.semaphore).0; owner = none }

release_owned :
    (l : Lock) (t : ℕ) → l.owner ≡ some t → release l t ≡ ok (released l, (v l.semaphore).1)
unfolding release is_held_by
release_owned l t owned = rw (owned, eq→== t t refl) refl

held_owned : (l : Lock) (t : ℕ) → l.owner ≡ some t → is_held_by l t ≡ true
unfolding is_held_by
held_owned l t owned = rw (owned, eq→== t t refl) refl

-- What the last thread of a round makes of the barrier, and what another one does.
abbrev full_round : Barrier → Barrier × (List ℕ × Bool)
full_round b = (record b { current_count = 0; condition = [] }, (b.condition, true))

abbrev one_more : Barrier → ℕ → Barrier × (List ℕ × Bool)
one_more b t = (
  record b {
    current_count = b.current_count + 1;
    mutex = released b.mutex;
    condition = b.condition ++ t ∷ [];
  },
  ((v b.mutex.semaphore).1, false),
)

-- The last thread of a round lets all others go; another one gives the mutex up and waits.
barrier_enter_lem :
    (b : Barrier) (t : ℕ)
    → b.mutex.owner ≡ some t
    → barrier_enter b t
      ≡ (if b.current_count + 1 == b.max_count then ok (full_round b) else ok (one_more b t))
unfolding barrier_enter broadcast condition_wait
barrier_enter_lem b t owned =
    rw (held_owned b.mutex t owned, broadcast_loop_lem b.condition, release_owned b.mutex t owned)
      refl

-- The lock stays sound while threads become ready.
more-IsSound :
    (s : LockState) (woken : List ℕ)
    → IsSound s
    → IsSound (record s { testing = s.testing ++ woken })
more-IsSound s woken sound = record {
  token = sound.token;
  awake = ground (arith, sound.awake, length-append {0} s.testing woken);
}

module _ (n : ℕ) (s : Meeting) (t : ℕ) (m : IsMeeting n s) where
  last-IsMeeting :
      s.barrier.current_count + 1 ≡ s.barrier.max_count
      → IsMeeting n (after_enter s t (full_round s.barrier))
  last-IsMeeting full =
      let (k, entered, gone) = m.rounds in
      record {
        sound = more-IsSound (lock_of s) s.barrier.condition m.sound;
        size = m.size;
        counted = refl;
        below = omega (arith, m.below);
        rounds = (
          suc k,
          omega (arith, entered, full, m.size),
          omega (
            arith,
            gone,
            full,
            m.size,
            m.counted,
            length-append {0} s.back (s.barrier.condition ++ t ∷ []),
            length-append {0} s.barrier.condition (t ∷ []),
          ),
        );
      }

  wait-IsMeeting :
      s.barrier.mutex.owner ≡ some t
      → s.barrier.current_count + 1 ≢ s.barrier.max_count
      → IsMeeting n (after_enter s t (one_more s.barrier t))
  wait-IsMeeting owned short =
      let (k, entered, gone) = m.rounds in
      record {
        sound =
            free-IsSound (lock_of s) t (released s.barrier.mutex) (v s.barrier.mutex.semaphore).1
              (release-Released s.barrier.mutex (released s.barrier.mutex) t
                (v s.barrier.mutex.semaphore).1 (release_owned s.barrier.mutex t owned))
              m.sound;
        size = m.size;
        counted = omega (arith, m.counted, length-append {0} s.barrier.condition (t ∷ []));
        below = omega (arith, m.below, m.size, short);
        rounds = (k, omega (arith, entered), gone);
      }

  enter-IsMeeting :
      (r : Barrier × (List ℕ × Bool))
      → s.barrier.mutex.owner ≡ some t
      → barrier_enter s.barrier t ≡ ok r
      → IsMeeting n (after_enter s t r)
  enter-IsMeeting r owned ran =
      let took = barrier_enter_lem s.barrier t owned in
      elim (Bool-cases (s.barrier.current_count + 1 == s.barrier.max_count)) [
        | inl e ↦
            let same : full_round s.barrier ≡ r = cc (rw e at took, ran) in
            subst (λ (r : Barrier × (List ℕ × Bool)). IsMeeting n (after_enter s t r)) same
              (last-IsMeeting (==→eq _ _ e))
        | inr e ↦
            let same : one_more s.barrier t ≡ r = cc (rw e at took, ran) in
            subst (λ (r : Barrier × (List ℕ × Bool)). IsMeeting n (after_enter s t r)) same
              (wait-IsMeeting owned (==→ne _ _ e))
      ]

leave-IsMeeting :
    (n : ℕ) (s : Meeting) (before : List ℕ) (t : ℕ) (behind : List ℕ) (b : Barrier) (woken : List ℕ)
    → s.back ≡ before ++ t ∷ behind
    → barrier_leave s.barrier t ≡ ok (b, woken)
    → IsMeeting n s
    → IsMeeting n (record {
      barrier = b;
      testing = s.testing ++ woken;
      back = before ++ behind;
      entered = s.entered;
      left = s.left + 1;
    })
unfolding barrier_leave
leave-IsMeeting n s before t behind b woken split ran m =
    let (freed, unlocked, rest) =
      went_through (λ (r : Lock × List ℕ). ok (record s.barrier { mutex = r.0 }, r.1)) (b, woken)
        (release s.barrier.mutex t) ran in
    let after : Barrier × List ℕ = (record s.barrier { mutex = freed.0 }, freed.1) in
    let same : after ≡ (b, woken) = cc in
    subst
      (λ (r : Barrier × List ℕ). IsMeeting n (record {
        barrier = r.0;
        testing = s.testing ++ r.1;
        back = before ++ behind;
        entered = s.entered;
        left = s.left + 1;
      }))
      same
      (record {
        sound =
            free-IsSound (lock_of s) t freed.0 freed.1
              (release-Released s.barrier.mutex freed.0 t freed.1 unlocked) m.sound;
        size = m.size;
        counted = m.counted;
        below = m.below;
        rounds = (
          m.rounds.0,
          m.rounds.1,
          omega (
            arith,
            m.rounds.2,
            ap (λ (ts : List ℕ). length ts) split,
            length-append {0} before (t ∷ behind),
            length-append {0} before behind,
          ),
        );
      })

test-IsMeeting :
    (n : ℕ) (s : Meeting) (before : List ℕ) (t : ℕ) (behind : List ℕ)
    → s.testing ≡ before ++ t ∷ behind
    → IsMeeting n s
    → IsMeeting n (record s {
      barrier = record s.barrier { mutex = (acquire_test s.barrier.mutex t).0 };
      testing = before ++ behind;
    })
test-IsMeeting n s before t behind split m = record {
  sound =
      test-IsSound (lock_of s) before behind t
        (ap (λ (ts : List ℕ). length ts) split ∙ length-append before (t ∷ behind)) m.sound;
  size = m.size;
  counted = m.counted;
  below = m.below;
  rounds = m.rounds;
}

Step-IsMeeting : (n : ℕ) (s s' : Meeting) → Step s s' → IsMeeting n s → IsMeeting n s'
Step-IsMeeting n s s' (call t out) m = record {
  sound = more-IsSound (lock_of s) (t ∷ []) m.sound;
  size = m.size;
  counted = m.counted;
  below = m.below;
  rounds = m.rounds;
}
Step-IsMeeting n s s' (test before t behind split) m = test-IsMeeting n s before t behind split m
Step-IsMeeting n s s' (enter t r owned new ran) m = enter-IsMeeting n s t m r owned ran
Step-IsMeeting n s s' (leave before t behind b woken split ran) m =
    leave-IsMeeting n s before t behind b woken split ran m

Reach-IsMeeting : (n : ℕ) (s : Meeting) → 0 < n → Reach n s → IsMeeting n s
unfolding new_barrier new_lock
Reach-IsMeeting n s pos here = record {
  sound = record { token = refl; awake = inl refl };
  size = refl;
  counted = refl;
  below = pos;
  rounds = (0, omega arith, omega arith);
}
Reach-IsMeeting n s pos (next {s = s₁} r st) = Step-IsMeeting n s₁ s st (Reach-IsMeeting n s₁ pos r)

-- The thread that has the mutex enters, or leaves.
entering :
    (b : Barrier) (t : ℕ)
    → b.mutex.owner ≡ some t
    → (r : Barrier × (List ℕ × Bool)) × (barrier_enter b t ≡ ok r)
entering b t owned = elim (Bool-cases (b.current_count + 1 == b.max_count)) [
  | inl e ↦ (full_round b, barrier_enter_lem b t owned ∙ rw e refl)
  | inr e ↦ (one_more b t, barrier_enter_lem b t owned ∙ rw e refl)
]

leaving :
    (b : Barrier) (t : ℕ)
    → b.mutex.owner ≡ some t
    → (b' : Barrier) × (woken : List ℕ) × (barrier_leave b t ≡ ok (b', woken))
      × (b'.mutex.owner ≡ none)
unfolding barrier_leave
leaving b t owned = (
  record b { mutex = released b.mutex },
  (v b.mutex.semaphore).1,
  rw (release_owned b.mutex t owned) refl,
  refl,
)

-- What the owner of the mutex can do: it enters and it leaves with no assertion failing, and leaving
-- frees the mutex.
abbrev pub Goes : Barrier → Option ℕ → Type 0
Goes b none = Unit
Goes b (some t) =
    ((r : Barrier × (List ℕ × Bool)) × (barrier_enter b t ≡ ok r))
    × ((b' : Barrier) × (woken : List ℕ) × (barrier_leave b t ≡ ok (b', woken))
        × (b'.mutex.owner ≡ none))

owner-Goes : (b : Barrier) (o : Option ℕ) → b.mutex.owner ≡ o → Goes b o
owner-Goes b none owned = tt
owner-Goes b (some t) owned = (entering b t owned, leaving b t owned)

-- At a barrier for `n` threads, in every order of their steps: the threads that have entered are those
-- of `k` whole rounds of `n` and, fewer than `n`, those that sleep on the condition; at most the
-- threads of the whole rounds have left, and the rest of these has been let go. For the thread that
-- has the mutex no assertion fails, neither if it enters nor if it leaves, and leaving frees the
-- mutex. The mutex has one owner or one token, and while it is free and threads sleep on it, some
-- thread is ready to test it.
pub barrier_rounds :
    {n : ℕ} {s : Meeting}
    → 0 < n
    → Reach n s
    → (k : ℕ) × (s.entered ≡ k * n + length s.barrier.condition)
      × (length s.barrier.condition < n)
      × (s.left + length s.back ≡ k * n)
      × Goes s.barrier s.barrier.mutex.owner
      × (s.barrier.mutex.semaphore.value + owners s.barrier.mutex.owner ≡ 1)
      × ((length s.barrier.mutex.semaphore.queue ≡ 0)
          ⊎ (s.barrier.mutex.semaphore.value ≤ length s.testing))
barrier_rounds {n} {s} pos reached =
    let m = Reach-IsMeeting n s pos reached in
    (
      m.rounds.0,
      omega (arith, m.rounds.1, m.counted),
      omega (arith, m.below, m.counted),
      m.rounds.2,
      owner-Goes s.barrier s.barrier.mutex.owner refl,
      m.sound.token,
      m.sound.awake,
    )
