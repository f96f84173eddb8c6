-- ===== src/Syscall.antt =====
-- syscall.c: how the kernel fetches the arguments of a system call from user memory. `mem` is the
-- memory of the process byte by byte, `sz` its size; `none` is the return value -1.
pub mod Bounds
use os_project03_thread.Common.{
  ℕ, zero, suc, ◌+◌, ◌-◌, ◌*◌, ◌%◌, ◌^◌, Bool, Option, none, some, ◌||◌, ◌==◌, ltb, leb,
  if◌then◌else◌, find_from,
}

-- the word at `a`, low byte first
unfoldable pub word_at : (ℕ → ℕ) → ℕ → ℕ
word_at mem a = mem a + mem (a + 1) * 256 + mem (a + 2) * 65536 + mem (a + 3) * 16777216

-- `addr+4` wraps around.
unfoldable pub fetchint : (ℕ → ℕ) → ℕ → ℕ → Option ℕ
unfolding word_at
fetchint mem sz addr =
    if leb sz addr || ltb sz ((addr + 4) % 2 ^ 32) then none else some (word_at mem addr)

-- The loop from `s` on, with `n` bytes up to the end of the memory: where the NUL is.
unfoldable pub find_nul : (ℕ → ℕ) → ℕ → ℕ → Option ℕ
find_nul mem s n = find_from (λ a. mem a == 0) n s

-- The pointer and the length of the string.
unfoldable pub fetchstr : (ℕ → ℕ) → ℕ → ℕ → Option (ℕ × ℕ)
unfolding find_nul
fetchstr mem sz addr =
    if leb sz addr
    then none
    else elim (find_nul mem addr (sz - addr)) [ none ↦ none | some s ↦ some (addr, s - addr) ]

-- `esp` is the stack pointer of the trap frame.
unfoldable pub argint : (ℕ → ℕ) → ℕ → ℕ → ℕ → Option ℕ
unfolding fetchint
argint mem sz esp n = fetchint mem sz ((esp + 4 + 4 * n) % 2 ^ 32)

-- `int size` is its bit pattern; a negative size is refused.
unfoldable pub argptr : (ℕ → ℕ) → ℕ → ℕ → ℕ → ℕ → Option ℕ
unfolding argint
argptr mem sz esp n size = elim (argint mem sz esp n) [
  | none ↦ none
  | some i ↦ if leb (2 ^ 31) size || leb sz i || ltb sz ((i + size) % 2 ^ 32) then none else some i
]

unfoldable pub argstr : (ℕ → ℕ) → ℕ → ℕ → ℕ → Option (ℕ × ℕ)
unfolding argint fetchstr
argstr mem sz esp n = elim (argint mem sz esp n) [ none ↦ none | some addr ↦ fetchstr mem sz addr ]
