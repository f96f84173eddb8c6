-- ===== src/Spinlock.antt =====
-- spinlock.c and spinlock.h: the spin lock of the kernel and the nesting of cli/sti,
-- seen from one CPU. `mycpu()` is the number of the CPU, from 1; 0 is the null `cpu` field.
pub mod Laws
use os_project03_thread.Common.{
  ℕ, ◌+◌, ◌-◌, Bool, true, false, ◌&&◌, Option, none, some, ◌==◌, if◌then◌else◌,
}

-- The fields of `struct cpu` that the locks use, and the interrupt flag FL_IF of its eflags.
pub record Cpu : Type 0 where
  pub ncli : ℕ
  pub intena : Bool
  pub iflag : Bool

-- `struct spinlock`, without the debugging fields `name` and `pcs`.
pub record Spinlock : Type 0 where
  pub locked : Bool
  pub cpu : ℕ

unfoldable pub initlock : Spinlock
initlock = record { locked = false; cpu = 0 }

-- `cli` clears the flag; the flag that was found is kept at the outermost level only.
unfoldable pub pushcli : Cpu → Cpu
pushcli c = record {
  ncli = c.ncli + 1;
  intena = (if c.ncli == 0 then c.iflag else c.intena);
  iflag = false;
}

-- `none` is a panic: interruptible, or more popcli than pushcli.
unfoldable pub popcli : Cpu → Option Cpu
popcli c =
    if c.iflag
    then none
    else if c.ncli == 0
    then none
    else some (record c {
      ncli = c.ncli - 1;
      iflag = (if (c.ncli - 1 == 0) && c.intena then true else c.iflag);
    })

abbrev pub is_mine : ℕ → Spinlock → Bool
is_mine me l = l.locked && (l.cpu == me)

-- The answer, and the CPU after the pushcli and popcli around the test.
unfoldable pub holding : ℕ → Spinlock → Cpu → Option (Bool × Cpu)
unfolding pushcli popcli
holding me l c = elim (popcli (pushcli c)) [ none ↦ none | some c' ↦ some (is_mine me l, c') ]

-- What a call of `acquire` or `release` comes to on this CPU.
pub data Attempt : Type 0 where
  done : Spinlock → Cpu → Attempt
  -- the xchg still finds the lock taken by another CPU
  spins : Cpu → Attempt
  panics : Attempt

unfoldable pub acquire : ℕ → Spinlock → Cpu → Attempt
unfolding pushcli holding
acquire me l c = elim (holding me l (pushcli c)) [
  | none ↦ panics
  | some (held, c') ↦
      if held
      then panics
      else if l.locked
      then spins c'
      else done (record { locked = true; cpu = me }) c'
]

unfoldable pub release : ℕ → Spinlock → Cpu → Attempt
unfolding popcli holding
release me l c = elim (holding me l c) [
  | none ↦ panics
  | some (held, c') ↦
      if held
      then elim (popcli c') [
        | none ↦ panics
        | some c'' ↦ done (record { locked = false; cpu = 0 }) c''
      ]
      else panics
]
