-- ===== src/Examples/Texts.antt =====
-- Runs of the block and string routines.
use os_project03_thread.Common.{ℕ, ◌+◌, ◌-◌, ◌%◌, ◌≡◌, ◌&&◌, leb, ltb, if◌then◌else◌}
use os_project03_thread.Strings.{memset, memmove}
use os_project03_thread.Strings.Blocks.{memset_at, memmove_at}

-- a memory in which each byte is its address
abbrev ramp : ℕ → ℕ
ramp a = a

memset_at_example : memset 8 513 4 ramp 10 ≡ (if leb 8 10 && ltb 10 (8 + 4) then 513 % 256 else 10)
memset_at_example = memset_at 8 513 4 ramp 10

memmove_at_example :
    memmove 12 10 4 ramp 15 ≡ (if leb 12 15 && ltb 15 (12 + 4) then ramp (10 + (15 - 12)) else 15)
memmove_at_example = memmove_at 12 10 4 ramp 15
