-- ===== src/Nachos/Syscalls/Waiting.antt =====
-- SemCreate, and what SemWait and SemSignal do with the semaphore that it made.
use distributed_ascii_server.Prelude.{
  ℕ, zero, suc, ◌+◌, ◌-◌, ◌<◌, ◌≡◌, ◌≢◌, refl, ap, ◌∙◌, Option, none, some, List, [], ◌∷◌, arith,
  get_elem?, set, lt→ltb, ne→==, eq→==,
}
use distributed_ascii_server.Nachos.Outcome.{Outcome, ok}
use distributed_ascii_server.Nachos.Synch.{Semaphore, new_semaphore, p_test}
use distributed_ascii_server.Nachos.Kernel.{
  Kernel, Ended, returned, asleep, write_register, return_from_system_call, result,
}
use distributed_ascii_server.Nachos.Syscalls.Semaphores.{
  sem_create_loop, sem_at, nachos_sem_create, nachos_sem_wait, wait_at,
}

-- The places below `n` are taken, and `n` is free.
abbrev pub IsFirstFree : List (Option Semaphore) → ℕ → Type 0
IsFirstFree [] n = ⊥
IsFirstFree (place ∷ table) zero = place ≡ none
IsFirstFree (place ∷ table) (suc n) = (place ≢ none) × IsFirstFree table n

abbrev filled : ℕ → List (Option Semaphore) → ℕ → ℕ × List (Option Semaphore)
filled m table initial = (m, some (new_semaphore initial) ∷ table)

abbrev kept : ℕ × List (Option Semaphore) → Semaphore → ℕ × List (Option Semaphore)
kept r s = (r.0, some s ∷ r.1)

sem_create_loop-first :
    (table : List (Option Semaphore)) (n start initial : ℕ)
    → IsFirstFree table n
    → sem_create_loop table start initial ≡ (start + n, set table n (some (new_semaphore initial)))
unfolding sem_create_loop
sem_create_loop-first [] n start initial h = absurd h
sem_create_loop-first (none ∷ table) zero start initial h =
    ap (λ (m : ℕ). filled m table initial) (omega arith)
sem_create_loop-first (some s ∷ table) zero start initial h = cc
sem_create_loop-first (none ∷ table) (suc n) start initial h = absurd (h.0 refl)
sem_create_loop-first (some s ∷ table) (suc n) start initial h =
    (let rest = sem_create_loop-first table n (suc start) initial h.1 in
      ap (λ (r : ℕ × List (Option Semaphore)). kept r s) rest
      ∙ ap (λ (m : ℕ). kept (m, set table n (some (new_semaphore initial))) s) (omega arith))

made_here :
    (table : List (Option Semaphore)) (n : ℕ) (s : Semaphore)
    → IsFirstFree table n
    → get_elem? (set table n (some s)) n ≡ some (some s)
made_here [] n s h = absurd h
made_here (place ∷ table) zero s h = refl
made_here (place ∷ table) (suc n) s h = made_here table n s h.1

sem_at-set :
    (table : List (Option Semaphore)) (n : ℕ) (s : Semaphore)
    → IsFirstFree table n
    → n < 128
    → sem_at (set table n (some s)) n ≡ some s
unfolding sem_at
sem_at-set table n s first small = rw (lt→ltb n 128 small, made_here table n s first) refl

module _ {U : Type 0} (k : Kernel U) (n : ℕ) (first : IsFirstFree k.sem_table n)
    (small : n < 128) where
  -- The kernel that SemCreate leaves.
  abbrev pub created : Kernel U
  created = return_from_system_call (
      write_register 2 n
        (record k { sem_table = set k.sem_table n (some (new_semaphore (k.registers 4))) }))

  abbrev made : ℕ × List (Option Semaphore) → Outcome (Ended U)
  made r = result r.0 (record k { sem_table = r.1 })

  -- Where a number below 128 is free, SemCreate returns the first such, with a semaphore of the given
  -- value behind it. A SemWait on that number then succeeds where the value is not 0, and takes one
  -- from it; where the value is 0 the thread sleeps in the semaphore's queue.
  pub sem_wait-sem_create :
      (nachos_sem_create k ≡ ok (returned created))
      × (k.registers 4 ≢ 0
          → nachos_sem_wait (write_register 4 n created)
            ≡ result 0 (record (write_register 4 n created) {
              sem_table =
                  set created.sem_table n (some (record { value = k.registers 4 - 1; queue = [] }));
            }))
      × (k.registers 4 ≡ 0
          → nachos_sem_wait (write_register 4 n created)
            ≡ ok (
                asleep (record (write_register 4 n created) {
                  sem_table =
                      set created.sem_table n
                        (some (record { value = k.registers 4; queue = k.thread ∷ [] }));
                })))
  unfolding nachos_sem_create nachos_sem_wait wait_at p_test new_semaphore return_from_system_call
  sem_wait-sem_create =
      let there = sem_at-set k.sem_table n (new_semaphore (k.registers 4)) first small in
      (
        ap made (sem_create_loop-first k.sem_table n 0 (k.registers 4) first)
            ∙ ap (λ (m : ℕ). made (m, set k.sem_table n (some (new_semaphore (k.registers 4)))))
                (omega arith),
        λ some_units. rw (there, ne→== (k.registers 4) 0 some_units) refl,
        λ none_left. rw (there, eq→== (k.registers 4) 0 none_left) refl,
      )
