-- ===== src/Nachos/Syscalls/Semaphores.antt =====
-- userprog/exception.cc: the table of semaphores, and SemCreate, SemDestroy, SemSignal and SemWait.
use distributed_ascii_server.Prelude.{
  ℕ, suc, Option, none, some, List, [], ◌∷◌, ◌++◌, ltb, if◌then◌else◌, get_elem?, set,
}
use distributed_ascii_server.Nachos.Outcome.{Outcome, ok, minus_one}
use distributed_ascii_server.Nachos.Synch.{Semaphore, new_semaphore, p_test, v}
use distributed_ascii_server.Nachos.Kernel.{Kernel, Ended, asleep, result}

abbrev pub max_semaphores : ℕ
max_semaphores = 128

-- The first free place of semTable from `id` on, filled; -1 if there is none.
unfoldable pub sem_create_loop : List (Option Semaphore) → ℕ → ℕ → ℕ × List (Option Semaphore)
sem_create_loop [] id initial_value = (minus_one, [])
sem_create_loop (none ∷ table) id initial_value = (id, some (new_semaphore initial_value) ∷ table)
sem_create_loop (some s ∷ table) id initial_value =
    let rest = sem_create_loop table (suc id) initial_value in (rest.0, some s ∷ rest.1)

abbrev pub semaphore_of : Option (Option Semaphore) → Option Semaphore
semaphore_of none = none
semaphore_of (some place) = place

-- semTable[id], or none where id is out of range or the place is empty; semTable has
-- MAX_SEMAPHORES places.
unfoldable pub sem_at : List (Option Semaphore) → ℕ → Option Semaphore
sem_at table id = if ltb id max_semaphores then semaphore_of (get_elem? table id) else none

module _ {U : Type 0} where
  unfoldable pub nachos_sem_create : Kernel U → Outcome (Ended U)
  nachos_sem_create k =
      let created = sem_create_loop k.sem_table 0 (k.registers 4) in
      result created.0 (record k { sem_table = created.1 })

  unfoldable pub destroy_at : Option Semaphore → Kernel U → Outcome (Ended U)
  destroy_at none k = result minus_one k
  destroy_at (some s) k = result 0 (record k { sem_table = set k.sem_table (k.registers 4) none })

  unfoldable pub nachos_sem_destroy : Kernel U → Outcome (Ended U)
  nachos_sem_destroy k = destroy_at (sem_at k.sem_table (k.registers 4)) k

  unfoldable pub signal_at : Option Semaphore → Kernel U → Outcome (Ended U)
  signal_at none k = result minus_one k
  signal_at (some s) k =
      let woken = v s in
      result 0 (record k {
        sem_table = set k.sem_table (k.registers 4) (some woken.0);
        ready = k.ready ++ woken.1;
      })

  unfoldable pub nachos_sem_signal : Kernel U → Outcome (Ended U)
  nachos_sem_signal k = signal_at (sem_at k.sem_table (k.registers 4)) k

  -- A thread that sleeps in P tests again when it is woken, and then goes on to the result.
  unfoldable pub wait_at : Option Semaphore → Kernel U → Outcome (Ended U)
  wait_at none k = result minus_one k
  wait_at (some s) k =
      let tested = p_test s k.thread in
      let k' = record k { sem_table = set k.sem_table (k.registers 4) (some tested.0) } in
      if tested.1 then result 0 k' else ok (asleep k')

  unfoldable pub nachos_sem_wait : Kernel U → Outcome (Ended U)
  nachos_sem_wait k = wait_at (sem_at k.sem_table (k.registers 4)) k
