-- ===== src/Nachos/Kernel.antt =====
-- The state on which system calls work: the registers and the memory of the machine, the current
-- thread's address space and open files, the semaphores, and Unix below them (machine/machine.cc,
-- machine/translate.cc, machine/sysdep.cc, and the globals of userprog/exception.cc).
use distributed_ascii_server.Prelude.{
  ℕ, ◌+◌, ◌*◌, ◌/◌, ◌%◌, Bool, true, false, not, ◌&&◌, Option, none, some, List, ◌++◌, leb, ◌==◌,
  if◌then◌else◌, get_elem?,
}
use distributed_ascii_server.Text.{Bytes}
use distributed_ascii_server.Nachos.Outcome.{Outcome, ok, assert_failed, ◌>>=◌}
use distributed_ascii_server.Nachos.OpenFiles.{OpenFilesTable}
use distributed_ascii_server.Nachos.Synch.{Semaphore, p_test, v}
use distributed_ascii_server.Nachos.AddrSpace.{AddrSpace, Frames, page_size, num_phys_pages, word}

-- What the Unix calls do, as far as the kernel sees it. `read` has none for -1; `connect` gets the
-- port and either the text of an IPv4 address or in6addr_any.
pub data SocketAddress : Type 0 where
  inet : ℕ → Bytes → SocketAddress
  inet6_any : ℕ → SocketAddress

pub record Unix (U : Type 0) : Type 0 where
  pub open_rw : U → Bytes → ℕ × U
  pub read : U → ℕ → ℕ → Option Bytes × U
  pub write : U → ℕ → Bytes → ℕ × U
  pub close : U → ℕ → ℕ × U
  pub socket : U → ℕ → ℕ → ℕ × U
  pub connect : U → ℕ → SocketAddress → ℕ × U

-- What Write prints on the console.
pub data Output : Type 0 where
  text : Bytes → Output
  number : ℕ → Output

-- A thread that Fork has made ready: its number, its space, and the routine's address.
pub record Child : Type 0 where
  pub id : ℕ
  pub space : AddrSpace
  pub routine : ℕ

-- The machine's page table is that of `space`, whose array has numPages entries.
pub record Kernel (U : Type 0) : Type 0 where
  pub registers : ℕ → ℕ
  pub frames : Frames
  pub space : Option AddrSpace
  pub files : OpenFilesTable
  pub console : Semaphore
  pub sem_table : List (Option Semaphore)
  pub thread : ℕ
  pub new_thread : ℕ
  pub ready : List ℕ
  pub children : List Child
  pub ipv6 : Bool
  pub printed : List Output
  pub unix : U

-- How a handler ends: it returns to the user program; or the thread sleeps in P, and goes on with
-- the test of P when it is woken; or the thread has finished.
pub data Ended (U : Type 0) : Type 0 where
  returned : Kernel U → Ended U
  asleep : Kernel U → Ended U
  finished : Kernel U → Ended U

pub data ExceptionType : Type 0 where
  no_exception : ExceptionType
  syscall_exception : ExceptionType
  page_fault_exception : ExceptionType
  read_only_exception : ExceptionType
  bus_error_exception : ExceptionType
  address_error_exception : ExceptionType
  overflow_exception : ExceptionType
  illegal_instr_exception : ExceptionType

-- PrevPCReg, PCReg, NextPCReg, LoadReg, LoadValueReg and BadVAddrReg
abbrev pub pc_reg : ℕ
pc_reg = 34

abbrev pub next_pc_reg : ℕ
next_pc_reg = 35

abbrev pub prev_pc_reg : ℕ
prev_pc_reg = 36

abbrev pub load_reg : ℕ
load_reg = 37

abbrev pub load_value_reg : ℕ
load_value_reg = 38

abbrev pub bad_v_addr_reg : ℕ
bad_v_addr_reg = 39

-- Where Translate finds one byte.
pub data Translated : Type 0 where
  at : ℕ → Translated
  raised : ExceptionType → Translated

-- Translate, for one byte, which is always aligned, and with no TLB.
unfoldable pub translate : AddrSpace → ℕ → Bool → Translated
translate space addr writing = elim (get_elem? space.page_table (addr / page_size)) [
  | none ↦ raised address_error_exception
  | some e ↦
      if not e.valid
      then raised page_fault_exception
      else (if e.read_only && writing
          then raised read_only_exception
          else (if leb num_phys_pages e.physical_page
              then raised bus_error_exception
              else at (e.physical_page * page_size + addr % page_size)))
]

-- An int that is below 0.
abbrev pub is_negative : ℕ → Bool
is_negative n = leb 2147483648 n

module _ {U : Type 0} where
  abbrev pub write_register : ℕ → ℕ → Kernel U → Kernel U
  write_register num value k = record k {
    registers = λ r. if r == num then value else k.registers r;
  }

  unfoldable pub delayed_load : ℕ → ℕ → Kernel U → Kernel U
  delayed_load next_reg next_value k =
      let k₁ = write_register (k.registers load_reg) (k.registers load_value_reg) k in
      let k₂ = write_register load_reg next_reg k₁ in
      let k₃ = write_register load_value_reg next_value k₂ in write_register 0 0 k₃

  -- ExceptionHandler, for all but system calls.
  unfoldable pub fault : ExceptionType → Kernel U → Outcome (Kernel U)
  fault which k = elim which [ page_fault_exception ↦ ok k | other ↦ assert_failed ]

  unfoldable pub raise_exception : ExceptionType → ℕ → Kernel U → Outcome (Kernel U)
  raise_exception which bad_v_addr k =
      fault which (delayed_load 0 0 (write_register bad_v_addr_reg bad_v_addr k))

  -- ReadMem of one byte: none where it returns false, with its value left alone.
  unfoldable pub read_mem : Kernel U → ℕ → Outcome (Option ℕ × Kernel U)
  read_mem k addr = elim k.space [
    | none ↦ assert_failed
    | some space ↦ elim (translate space addr false) [
      | at p ↦ ok (some (k.frames.main_memory p), k)
      | raised which ↦ raise_exception which addr k >>= λ k'. ok (none, k')
    ]
  ]

  abbrev pub store_byte : ℕ → ℕ → Kernel U → Kernel U
  store_byte p value k = record k {
    frames = record k.frames {
      main_memory = λ q. if q == p then value % 256 else k.frames.main_memory q;
    };
  }

  unfoldable pub write_mem : Kernel U → ℕ → ℕ → Outcome (Bool × Kernel U)
  write_mem k addr value = elim k.space [
    | none ↦ assert_failed
    | some space ↦ elim (translate space addr true) [
      | at p ↦ ok (true, store_byte p value k)
      | raised which ↦ raise_exception which addr k >>= λ k'. ok (false, k')
    ]
  ]

  -- Console->P(), with what follows it, and Console->V().
  unfoldable pub p_console : Kernel U → (Kernel U → Outcome (Ended U)) → Outcome (Ended U)
  p_console k rest =
      let tested = p_test k.console k.thread in
      let k' = record k { console = tested.0 } in if tested.1 then rest k' else ok (asleep k')

  unfoldable pub v_console : Kernel U → Kernel U
  v_console k =
      let woken = v k.console in record k { console = woken.0; ready = k.ready ++ woken.1 }

  unfoldable pub return_from_system_call : Kernel U → Kernel U
  return_from_system_call k =
      let k₁ = write_register prev_pc_reg (k.registers pc_reg) k in
      let k₂ = write_register pc_reg (k₁.registers next_pc_reg) k₁ in
      write_register next_pc_reg (word (k₂.registers next_pc_reg + 4)) k₂

  -- The result in r2, and back to the user program behind the system call.
  abbrev pub result : ℕ → Kernel U → Outcome (Ended U)
  result value k = ok (returned (return_from_system_call (write_register 2 value k)))

  -- The same with Console->V() before the return.
  abbrev pub console_result : ℕ → Kernel U → Outcome (Ended U)
  console_result value k =
      ok (returned (return_from_system_call (v_console (write_register 2 value k))))

  module _ (unix : Unix U) where
    unfoldable pub open_for_read_write : Bytes → Bool → Kernel U → Outcome (ℕ × Kernel U)
    open_for_read_write name crash_on_error k =
        let opened = unix.open_rw k.unix name in
        if crash_on_error && is_negative opened.0
        then assert_failed
        else ok (opened.0, record k { unix = opened.1 })

    unfoldable pub read_partial : ℕ → ℕ → Kernel U → Option Bytes × Kernel U
    read_partial fd n_bytes k =
        let got = unix.read k.unix fd n_bytes in (got.0, record k { unix = got.1 })

    unfoldable pub write_unix_file : ℕ → Bytes → ℕ → Kernel U → Outcome (Kernel U)
    write_unix_file fd buffer n_bytes k =
        let done = unix.write k.unix fd buffer in
        if done.0 == n_bytes then ok (record k { unix = done.1 }) else assert_failed

    unfoldable pub close_unix_file : ℕ → Kernel U → Outcome (Kernel U)
    close_unix_file fd k =
        let done = unix.close k.unix fd in
        if is_negative done.0 then assert_failed else ok (record k { unix = done.1 })
