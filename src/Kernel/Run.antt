-- ===== src/Kernel/Run.antt =====
-- A system call as a command on the kernel, `ptable.lock`, and `sched` of proc.c.
use os_project03_thread.Common.{
  ℕ, zero, suc, ◌+◌, ◌≡◌, Bool, true, false, Option, none, some, ◌==◌, if◌then◌else◌, arith, update,
}
use os_project03_thread.Spinlock
use os_project03_thread.Spinlock.{Spinlock, Cpu, Attempt}
use os_project03_thread.Kernel.State.{Kernel, Proc, SharedData, TrapFrame, is_running}

-- `switched` is the kernel at the moment when `sched` has left for the scheduler: what the code
-- does after that is a command of its own. `spinning`: another CPU has the lock.
pub data Run (M A : Type 0) : Type 0 where
  ok : A → Kernel M → Run M A
  switched : Kernel M → Run M A
  spinning : Run M A
  panic : Run M A

abbrev pub Cmd : Type 0 → Type 0 → Type 0
Cmd M A = Kernel M → Run M A

module _ {M A B : Type 0} where
  abbrev pub and_then : Run M A → (A → Cmd M B) → Run M B
  and_then (ok a k) f = f a k
  and_then (switched k) f = switched k
  and_then spinning f = spinning
  and_then panic f = panic

  infixl 5 ◌>>=◌ ◌>>◌
  abbrev pub ◌>>=◌ : Cmd M A → (A → Cmd M B) → Cmd M B
  m >>= f = λ k. and_then (m k) f

  abbrev pub ◌>>◌ : Cmd M A → Cmd M B → Cmd M B
  m >> n = m >>= λ _. n

module _ {M : Type 0} where
  -- `for (i = from; i < from + n; i++) body(i);`
  unfoldable pub for_cmd : (ℕ → Cmd M (Unit {0})) → ℕ → ℕ → Cmd M (Unit {0})
  for_cmd body zero i k = ok tt k
  for_cmd body (suc n) i k = and_then (body i k) (λ _. for_cmd body n (i + 1))

module _ {M A : Type 0} where
  abbrev pub pure : A → Cmd M A
  pure = ok

  abbrev pub panics : Cmd M A
  panics _ = panic

  -- The two branches of a test, and of a search that may find nothing.
  abbrev pub when : Bool → Cmd M A → Cmd M A → Cmd M A
  when true m n k = m k
  when false m n k = n k

  abbrev pub search_or : {B : Type 0} → Option B → Cmd M A → (B → Cmd M A) → Cmd M A
  search_or none m f k = m k
  search_or (some b) m f k = f b k

-- the number of this CPU
abbrev pub this_cpu : ℕ
this_cpu = 1

module _ {M : Type 0} where
  abbrev pub get : Cmd M (Kernel M)
  get k = ok k k

  abbrev pub modify : (Kernel M → Kernel M) → Cmd M (Unit {0})
  modify f k = ok tt (f k)

  abbrev pub called : Option M → Cmd M (Unit {0})
  called none k = panic
  called (some m) k = ok tt (record k { env = m })

  abbrev pub asked : {A : Type 0} → Option (A × M) → Cmd M A
  asked none k = panic
  asked (some (a, m)) k = ok a (record k { env = m })

  -- A call of another component, which may panic.
  abbrev pub call_env : (M → Option M) → Cmd M (Unit {0})
  call_env f k = called (f k.env) k

  abbrev pub ask_env : {A : Type 0} → (M → Option (A × M)) → Cmd M A
  ask_env f k = asked (f k.env) k

  -- `p->field = …` through a change of the row at `p`
  abbrev pub set_proc : ℕ → (Proc → Proc) → Kernel M → Kernel M
  set_proc p f k = record k { proc = update k.proc p (f (k.proc p)) }

  -- `p->sharePtr->field = …`, by the address of the shared data
  abbrev pub set_shared : ℕ → (SharedData → SharedData) → Kernel M → Kernel M
  set_shared a f k = record k { shared = update k.shared a (f (k.shared a)) }

  abbrev pub set_frame : ℕ → TrapFrame → Kernel M → Kernel M
  set_frame a v k = record k { frame = update k.frame a v }

  abbrev pub settle : Attempt → Cmd M (Unit {0})
  settle (Attempt.done l c) k = ok tt (record k { lock = l; cpu = c })
  settle (Attempt.spins c) k = spinning
  settle Attempt.panics k = panic

  -- acquire(&ptable.lock), release(&ptable.lock)
  unfoldable pub acquire : Cmd M (Unit {0})
  unfolding Spinlock.acquire
  acquire k = settle (Spinlock.acquire this_cpu k.lock k.cpu) k

  unfoldable pub release : Cmd M (Unit {0})
  unfolding Spinlock.release
  release k = settle (Spinlock.release this_cpu k.lock k.cpu) k

  -- The four guards of `sched`, then the switch to the scheduler.
  unfoldable pub sched : {A : Type 0} → ℕ → Cmd M A
  unfolding Spinlock.holding
  sched cur k = elim (Spinlock.holding this_cpu k.lock k.cpu) [
    | none ↦ panic
    | some (held, c) ↦
        if held
        then (if c.ncli == 1
            then (if is_running (k.proc cur).state
                then panic
                else if c.iflag
                then panic
                else switched (record k { cpu = c }))
            else panic)
        else panic
  ]

  -- Where a process stands in user code or between two system calls: no spin lock is held here, and
  -- `ptable.lock` is free.
  pub record IsOpen (k : Kernel M) : Type 0 where
    pub free : k.lock.locked ≡ false
    pub flat : k.cpu.ncli ≡ 0

  -- The kernel inside `acquire(&ptable.lock)`, and after the matching `release`.
  abbrev pub entered : Kernel M → Kernel M
  entered k = record k {
    lock = record { locked = true; cpu = this_cpu };
    cpu = record { ncli = k.cpu.ncli + 1; intena = k.cpu.iflag; iflag = false };
  }

  pub acquire-entered : (k : Kernel M) → IsOpen k → acquire k ≡ ok tt (entered k)
  unfolding acquire
  acquire-entered k h = ground arith

  -- Inside the lock, as `acquire` left it.
  pub record IsLocked (k : Kernel M) : Type 0 where
    pub held : k.lock ≡ record { locked = true; cpu = this_cpu }
    pub once : k.cpu.ncli ≡ 1
    pub off : k.cpu.iflag ≡ false

  abbrev pub left : Kernel M → Kernel M
  left k = record k {
    lock = record { locked = false; cpu = 0 };
    cpu = record { ncli = 0; intena = k.cpu.intena; iflag = k.cpu.intena };
  }

  pub entered-IsLocked : (k : Kernel M) → IsOpen k → IsLocked (entered k)
  entered-IsLocked k h = ground arith

  pub left-IsOpen : (k : Kernel M) → IsOpen (left k)
  left-IsOpen k = ground arith

  pub release-left : (k : Kernel M) → IsLocked k → release k ≡ ok tt (left k)
  unfolding release
  release-left k h = ground arith

  -- `sched` leaves, with the kernel as it is, if the process has given up the state RUNNING.
  pub sched-switched :
      {A : Type 0} (cur : ℕ) (k : Kernel M)
      → IsLocked k
      → is_running (k.proc cur).state ≡ false
      → sched {A = A} cur k ≡ switched k
  unfolding sched
  sched-switched cur k h s = ground arith
