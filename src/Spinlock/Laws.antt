-- ===== src/Spinlock/Laws.antt =====
-- What `acquire` and `release` of spinlock.c promise to one CPU and between CPUs.
use os_project03_thread.Common.{ℕ, ◌≡◌, ◌≢◌, ◌<◌, true, false, some, arith, refl}
use os_project03_thread.Spinlock.{
  Cpu, Spinlock, pushcli, popcli, done, spins, panics, acquire, release,
}

-- The state of a CPU that holds a spin lock: interrupts are off and counted.
pub record IsNested (c : Cpu) : Type 0 where
  pub off : c.iflag ≡ false
  pub counted : 0 < c.ncli

pub pushcli-IsNested : (c : Cpu) → IsNested (pushcli c)
unfolding pushcli
pushcli-IsNested c = record { off = refl; counted = omega arith }

-- `popcli` undoes `pushcli`: the interrupt flag and the depth are those from before, and inside an
-- outer level the remembered flag is kept too.
pub popcli-pushcli :
    (c : Cpu)
    → (IsNested c → popcli (pushcli c) ≡ some c)
      × (c.ncli ≡ 0 → popcli (pushcli c) ≡ some (record c { intena = c.iflag }))
unfolding pushcli popcli
popcli-pushcli c = (λ h. ground arith, λ h. ground arith)

pub acquire-free :
    (me : ℕ) (l : Spinlock) (c : Cpu)
    → l.locked ≡ false
    → acquire me l c ≡ done (record { locked = true; cpu = me }) (pushcli c)
unfolding acquire
acquire-free me l c h = ground arith

-- A lock that is taken is never taken again: its owner panics and any other CPU goes on spinning.
pub acquire-taken :
    (me : ℕ) (l : Spinlock) (c : Cpu)
    → l.locked ≡ true
    → (l.cpu ≡ me → acquire me l c ≡ panics) × (l.cpu ≢ me → acquire me l c ≡ spins (pushcli c))
unfolding acquire
acquire-taken me l c h = (λ e. ground arith, λ e. ground arith)

-- Only the owner can release: on any other CPU, and on a free lock, `release` panics.
pub release-foreign :
    (me : ℕ) (l : Spinlock) (c : Cpu) → (l.locked ≡ true → l.cpu ≢ me) → release me l c ≡ panics
unfolding release
release-foreign me l c h = ground arith

-- Acquire of a free lock by a CPU that holds no other, and then release: the lock is free again, and
-- the CPU has its depth and interrupt flag back.
pub release-acquire :
    (me : ℕ) (l : Spinlock) (c : Cpu)
    → l.locked ≡ false
    → (c.ncli ≡ 0)
    → (l' : Spinlock) × (c' : Cpu) × (acquire me l c ≡ done l' c')
      × (release me l' c'
          ≡ done (record { locked = false; cpu = 0 }) (record c { intena = c.iflag }))
unfolding acquire release
release-acquire me l c h n =
    (record { locked = true; cpu = me }, pushcli c, ground arith, ground arith)
