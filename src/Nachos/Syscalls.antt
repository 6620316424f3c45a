-- ===== src/Nachos/Syscalls.antt =====
-- userprog/exception.cc: the handlers that end or fork a thread, and the dispatch to all handlers.
pub mod Memory
pub mod Semaphores
pub mod Files
pub mod Sockets
pub mod UserMemory
pub mod StoreMemory
pub mod Reading
pub mod Writing
pub mod Opening
pub mod Waiting
pub mod Forking
pub mod Connections
use distributed_ascii_server.Prelude.{
  ◌*◌, ◌-◌, ℕ, zero, suc, ◌+◌, ◌-◌, ◌*◌, Bool, true, false, not, ◌&&◌, ◌||◌, Option, none, some,
  List, [], ◌∷◌, ◌++◌, ltb, leb, ◌==◌, if◌then◌else◌, get_elem?, length, set,
}
use distributed_ascii_server.Text.{Bytes, c_str}
use distributed_ascii_server.Nachos.Outcome.{
  Outcome, ok, assert_failed, out_of_bounds, ◌>>=◌, minus_one,
}
use distributed_ascii_server.Nachos.OpenFiles.{
  open_file, is_opened, get_unix_handle, close_file, add_thread,
}
use distributed_ascii_server.Nachos.Synch.{Semaphore, new_semaphore, p_test, v}
use distributed_ascii_server.Nachos.AddrSpace.{
  Frames, word, page_size, AddrSpace, page_size, word, delete_addr_space, fork_addr_space,
}
use distributed_ascii_server.Nachos.Kernel.{
  Child, write_register, pc_reg, next_pc_reg, Kernel, Unix, Ended, returned, asleep, finished,
  Output, text, number, SocketAddress, inet, inet6_any, ExceptionType, page_fault_exception,
  syscall_exception, write_register, fault, read_mem, write_mem, p_console, v_console,
  return_from_system_call, is_negative, open_for_read_write, result, console_result, read_partial,
  write_unix_file, close_unix_file, pc_reg, next_pc_reg,
}
use distributed_ascii_server.Nachos.Syscalls.Semaphores.{
  nachos_sem_create, nachos_sem_destroy, nachos_sem_signal, nachos_sem_wait,
}
use distributed_ascii_server.Nachos.Syscalls.Files.{
  nachos_open, nachos_read, nachos_write, nachos_close,
}
use distributed_ascii_server.Nachos.Syscalls.Sockets.{nachos_socket, nachos_connect}

-- The handlers that are empty: Exec, Join, Create, Yield, and those of locks, conditions and the
-- other calls of sockets.
abbrev pub is_empty : ℕ → Bool
is_empty type =
    (type == 2)
    || (type == 3)
    || (type == 4)
    || (type == 10)
    || (leb 15 type && ltb type 24)
    || (leb 32 type && ltb type 36)

-- NumTotalRegs, StackReg and RetAddrReg
abbrev pub num_total_regs : ℕ
num_total_regs = 40

abbrev pub stack_reg : ℕ
stack_reg = 29

abbrev pub ret_addr_reg : ℕ
ret_addr_reg = 31

module _ {U : Type 0} where
  -- Finish does not come back, so that interrupt->Halt() behind it is not reached.
  unfoldable pub nachos_halt : Kernel U → Outcome (Ended U)
  nachos_halt k = ok (finished k)

  unfoldable pub nachos_exit : Kernel U → Outcome (Ended U)
  nachos_exit k = elim k.space [
    | none ↦ ok (finished k)
    | some space ↦ delete_addr_space space k.frames >>= λ frames.
        ok (finished (record k { frames = frames; space = none }))
  ]

  -- The kernel after the parent's part of Fork, up to the return of the system call.
  abbrev pub forked : AddrSpace × Frames → Kernel U → Kernel U
  forked child k = record k {
    files = add_thread k.files;
    frames = child.1;
    new_thread = k.new_thread + 1;
    ready = k.ready ++ k.new_thread ∷ [];
    children =
        k.children ++ record { id = k.new_thread; space = child.0; routine = k.registers 4 } ∷ [];
  }

  -- Fork behind P, where a null space is followed as a failed ASSERT: the child shares the open files and all pages but the stack's.
  unfoldable pub fork_space : Option AddrSpace → Kernel U → Outcome (Ended U)
  fork_space none k = assert_failed
  fork_space (some space) k = fork_addr_space space k.frames >>= λ child.
      ok (returned (v_console (return_from_system_call (forked child k))))

  unfoldable pub fork_locked : Kernel U → Outcome (Ended U)
  fork_locked k = fork_space k.space k

  unfoldable pub nachos_fork : Kernel U → Outcome (Ended U)
  nachos_fork k = p_console k fork_locked

  -- InitRegisters
  unfoldable pub init_registers : AddrSpace → Kernel U → Kernel U
  init_registers space k =
      let k₁ = record k { registers = λ r. if ltb r num_total_regs then 0 else k.registers r } in
      let k₂ = write_register pc_reg 0 k₁ in
      let k₃ = write_register next_pc_reg 4 k₂ in
      write_register stack_reg (word (space.num_pages * page_size + 4294967296 - 16)) k₃

  -- NachosForkThread up to Run: the child is the current thread, and RestoreState makes its table the
  -- machine's.
  unfoldable pub nachos_fork_thread : Child → Kernel U → Kernel U
  nachos_fork_thread child k =
      let k₁ =
        init_registers child.space (record k { thread = child.id; space = some child.space }) in
      let k₂ = record k₁ { files = add_thread k₁.files } in
      let k₃ = write_register ret_addr_reg 4 k₂ in
      let k₄ = write_register pc_reg child.routine k₃ in
      write_register next_pc_reg (word (child.routine + 4)) k₄

module _ {U : Type 0} (unix : Unix U) where
  -- ExceptionHandler.
  unfoldable pub system_call : ℕ → Kernel U → Outcome (Ended U)
  system_call type k =
      if type == 0
      then nachos_halt k
      else if type == 1
      then nachos_exit k
      else if type == 5
      then nachos_open unix k
      else if type == 6
      then nachos_read unix k
      else if type == 7
      then nachos_write unix k
      else if type == 8
      then nachos_close unix k
      else if type == 9
      then nachos_fork k
      else if type == 11
      then nachos_sem_create k
      else if type == 12
      then nachos_sem_destroy k
      else if type == 13
      then nachos_sem_signal k
      else if type == 14
      then nachos_sem_wait k
      else if type == 30
      then nachos_socket unix k
      else if type == 31
      then nachos_connect unix k
      else if is_empty type
      then ok (returned k)
      else assert_failed

  unfoldable pub exception_handler : ExceptionType → Kernel U → Outcome (Ended U)
  exception_handler which k = elim which [
    | syscall_exception ↦ system_call (k.registers 2) k
    | other ↦ fault other k >>= λ k'. ok (returned k')
  ]
