-- ===== src/Examples/Bakers.antt =====
-- Runs of the bakery lock.
use os_project03_thread.Common.{ℕ, zero, suc, ◌<◌, ◌≡◌, refl, arith, true, List, [], ◌∷◌}
use os_project03_thread.Bakery.{num_threads, advance, run, init, System, Reach, start}
use os_project03_thread.Bakery.Safety.{is_inside, mutual_exclusion}
use os_project03_thread.Bakery.Counter.{total_done, shared_resource_exact}
use os_project03_thread.Bakery.Runs.{AreThreads, run-Reach}

-- `n` turns of one thread.
turns : ℕ → ℕ → List ℕ
turns tid zero = []
turns tid (suc n) = tid ∷ turns tid n

turns-AreThreads : (tid n : ℕ) → tid < num_threads → AreThreads (turns tid n)
unfolding AreThreads turns
turns-AreThreads tid zero h = tt
turns-AreThreads tid (suc n) h = (h, turns-AreThreads tid n h)

-- Thread 0 alone reads the ten numbers, takes the number 1 and looks at all threads: 36 steps.
abbrev entered : System
entered = run (turns 0 36) init

entered-Reach : Reach entered
entered-Reach = run-Reach (turns 0 36) init (turns-AreThreads 0 36 (omega arith)) start

entered_inside : is_inside (entered.pc 0) ≡ true
unfolding run advance turns is_inside
entered_inside = refl

mutual_exclusion_example : ◌≡◌ {A = ℕ} 0 0
mutual_exclusion_example =
    mutual_exclusion entered-Reach 0 0 (omega arith) (omega arith) entered_inside entered_inside

shared_resource_exact_example : entered.mem.shared_resource ≡ total_done num_threads entered.pc
shared_resource_exact_example = shared_resource_exact entered-Reach
