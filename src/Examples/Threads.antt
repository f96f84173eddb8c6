-- ===== src/Examples/Threads.antt =====
-- The thread calls on the small kernel.
use os_project03_thread.Common.{
  ◌≤◌, ◌<◌, ℕ, ◌≡◌, ◌≢◌, refl, false, find_from, Option, none, some, arith,
}
use os_project03_thread.Kernel.State.{Kernel, runnable}
use os_project03_thread.Kernel.Run.{ok, switched, set_proc, left}
use os_project03_thread.Proc.Alloc.{find_unused}
use os_project03_thread.Proc.Sleep.{next_runnable}
use os_project03_thread.Proc.Thread.{
  free_index, is_joinable, find_joinable, thread_create, thread_exit, thread_join,
}
use os_project03_thread.Proc.Thread.Create.{
  Created, Abandoned, thread_create-Created, thread_create_full, thread_create-Abandoned,
}
use os_project03_thread.Proc.Thread.Group.{Listed}
use os_project03_thread.Proc.Thread.Join.{IsOver, Joined, join-Joined}
use os_project03_thread.Proc.Thread.Value.{thread_exit-join}
use os_project03_thread.Examples.Boot.{page_ops, stuck_ops, boot, done, boot-IsOpen, done-IsOpen}

slot : find_unused boot.proc ≡ some 5
unfolding find_unused find_from
slot = refl

third_index : free_index (boot.shared 20) ≡ some 2
unfolding free_index find_from
third_index = refl

no_index : free_index (boot.shared 10) ≡ none
unfolding free_index find_from
no_index = refl

-- With the address space of 8192 bytes a thread of the shell gets a stack up to 16384.
thread_create-Created_example :
    (k' : Kernel ℕ) × (thread_create page_ops 2 4242 7 boot ≡ ok (some 2) k')
    × Created 2 4242 5 16384 boot k'
    × Listed 2 5 (boot.shared 20) (k'.shared 20)
thread_create-Created_example =
    thread_create-Created page_ops 2 4242 7 5 boot boot-IsOpen slot (λ h. ground arith)
      (λ h. ground arith) 16384 2 2 refl (λ h. ground arith) refl refl 2 third_index

thread_create_full_example :
    (k' : Kernel ℕ) × (thread_create page_ops 1 4242 7 boot ≡ ok (some 0) k')
    × Created 1 4242 5 12288 boot k'
    × (k'.shared 10 ≡ record (boot.shared 10) { sz = 12288 })
thread_create_full_example =
    thread_create_full page_ops 1 4242 7 5 boot boot-IsOpen slot (λ h. ground arith)
      (λ h. ground arith) 12288 2 2 refl (λ h. ground arith) refl refl no_index

thread_create-Abandoned_example :
    (k' : Kernel ℕ) × (thread_create stuck_ops 2 4242 7 boot ≡ ok none k')
    × Abandoned 8192 2 5 boot k'
thread_create-Abandoned_example =
    thread_create-Abandoned stuck_ops 2 4242 7 5 boot boot-IsOpen slot (λ h. ground arith)
      (λ h. ground arith) 2 refl

finds_thread : find_joinable done.proc 2 1 ≡ some 3
unfolding find_joinable is_joinable find_from
finds_thread = refl

thread-IsOver : IsOver 1 1 (done.proc 3)
thread-IsOver = record { ended = refl; index = refl; family = refl; thread = λ h. ground arith }

none_before : (j : ℕ) → 1 ≤ j → j < 3 → IsOver 1 1 (done.proc j) → ⊥
none_before j a b h = ground (arith, h.ended)

join-Joined_example :
    (k' : Kernel ℕ) × (thread_join page_ops 2 1 done ≡ ok (some 42) k') × Joined 2 3 1 done k'
join-Joined_example =
    join-Joined page_ops 2 1 done done-IsOpen refl 3 1 (omega arith) (omega arith) thread-IsOver
      none_before refl

other_threads : (j : ℕ) → j ≢ 3 → is_joinable 1 1 (boot.proc j) ≡ false
unfolding is_joinable
other_threads j h = ground arith

thread_exit-join_example :
    (k₁ k₂ : Kernel ℕ) × (thread_exit {A = Option ℕ} 3 42 boot ≡ switched k₁)
    × (thread_join page_ops 2 1 (left k₁) ≡ ok (some 42) k₂)
    × Joined 2 3 1 (left k₁) k₂
thread_exit-join_example =
    thread_exit-join page_ops 3 2 42 boot boot-IsOpen (omega arith, omega arith) (λ h. ground arith)
      refl refl (λ h. ground arith) other_threads 1 refl

abbrev waiting : Kernel ℕ
waiting = set_proc 3 (λ p. record p { state = runnable }) boot

first_runnable : next_runnable waiting.proc 1 ≡ some 3
unfolding next_runnable find_from
first_runnable = refl
