-- ===== src/Simulation/Buffer.antt =====
-- src/SharedMemory.cpp: the circular buffer of 1024 characters, and the flags beside it. A
-- semaphore is its count; sem_wait on a count of 0 blocks, so it gives none.
pub mod Laws
use distributed_ascii_server.Prelude.{
  ℕ, zero, suc, ◌+◌, ◌-◌, ◌%◌, Bool, true, false, Option, none, some, List, [], ◌∷◌, ◌++◌, ◌==◌,
  if◌then◌else◌,
}
use distributed_ascii_server.Text.{Bytes, Run, done, no_fuel, ◌>>=◌, c_str}

pub record SharedMemory : Type 0 where
  pub buffer : ℕ → ℕ
  pub write_index : ℕ
  pub read_index : ℕ
  pub client_semaphore : ℕ
  pub tenedor_semaphore : ℕ
  pub server_semaphore : ℕ
  pub finished : Bool

-- The constructor leaves the buffer as it was allocated.
unfoldable pub new_shared_memory : (ℕ → ℕ) → SharedMemory
new_shared_memory garbage = record {
  buffer = garbage;
  write_index = 0;
  read_index = 0;
  client_semaphore = 0;
  tenedor_semaphore = 0;
  server_semaphore = 0;
  finished = false;
}

-- buffer[i] = c
unfoldable pub store : (ℕ → ℕ) → ℕ → ℕ → ℕ → ℕ
store buffer i c p = if p == i then c else buffer p

-- The loop of write, over the characters before the NUL, and the NUL that it adds.
unfoldable pub write_loop : (ℕ → ℕ) → ℕ → Bytes → (ℕ → ℕ) × ℕ
write_loop buffer index [] = (store buffer index 0, (index + 1) % 1024)
write_loop buffer index (c ∷ value) = write_loop (store buffer index c) ((index + 1) % 1024) value

unfoldable pub write : SharedMemory → Bytes → SharedMemory
write m value =
    let written = write_loop m.buffer m.write_index (c_str value) in
    record m { buffer = written.0; write_index = written.1 }

-- The loop of read: up to the next NUL, which it skips.
unfoldable pub read_loop : ℕ → (ℕ → ℕ) → ℕ → Bytes → Run (Bytes × ℕ)
read_loop zero buffer index result = no_fuel
read_loop (suc fuel) buffer index result =
    let rest = read_loop fuel buffer ((index + 1) % 1024) (result ++ buffer index ∷ []) in
    if buffer index == 0 then done (result, (index + 1) % 1024) else rest

-- A text in the buffer has its NUL within 1024 places; the loop never ends where there is none.
unfoldable pub read : SharedMemory → Run (Bytes × SharedMemory)
read m =
    read_loop 1025 m.buffer m.read_index [] >>= λ got. done (got.0, record m { read_index = got.1 })

unfoldable pub signal_client : SharedMemory → SharedMemory
signal_client m = record m { client_semaphore = m.client_semaphore + 1 }

unfoldable pub wait_client : SharedMemory → Option SharedMemory
wait_client m =
    if m.client_semaphore == 0
    then none
    else some (record m { client_semaphore = m.client_semaphore - 1 })

unfoldable pub signal_tenedor : SharedMemory → SharedMemory
signal_tenedor m = record m { tenedor_semaphore = m.tenedor_semaphore + 1 }

unfoldable pub wait_tenedor : SharedMemory → Option SharedMemory
wait_tenedor m =
    if m.tenedor_semaphore == 0
    then none
    else some (record m { tenedor_semaphore = m.tenedor_semaphore - 1 })

unfoldable pub signal_server : SharedMemory → SharedMemory
signal_server m = record m { server_semaphore = m.server_semaphore + 1 }

unfoldable pub wait_server : SharedMemory → Option SharedMemory
wait_server m =
    if m.server_semaphore == 0
    then none
    else some (record m { server_semaphore = m.server_semaphore - 1 })

unfoldable pub set_finished : SharedMemory → Bool → SharedMemory
set_finished m value = record m { finished = value }

unfoldable pub get_finished : SharedMemory → Bool
get_finished m = m.finished
