-- ===== src/Examples/Boot.antt =====
-- A kernel with four entries in the process table and simple memory and file components: the
-- concrete data that the examples run on.
use os_project03_thread.Common.{
  ℕ, ◌+◌, ◌*◌, inl, true, false, none, some, [], ◌==◌, if◌then◌else◌, arith,
}
use os_project03_thread.Kernel.State.{Kernel, Proc, SharedData, unused, running, zombie}
use os_project03_thread.Kernel.Ops.{Ops}
use os_project03_thread.Kernel.Run.{IsOpen, set_proc}
use os_project03_thread.Proc.Pids.Rules.{HasPids}
use os_project03_thread.Proc.Pids.Reachable.{IsSound}

-- The state of the other components is the number of pages that kalloc has given out.
abbrev pub page_ops : Ops ℕ
page_ops = record {
  forkret = 100;
  trapret = 200;
  kalloc = λ m. (4096 * (m + 1), m + 1);
  kfree = λ a m. if a == 0 then none else some m;
  copyuvm = λ d sz m. some (4096 * (m + 1), m + 1);
  allocuvm = λ d old new m. some (new, m);
  deallocuvm = λ d old new m. some (new, m);
  freevm = λ d m. some m;
  clearpteu = λ d a m. some m;
  copyout = λ d a words m. (true, m);
  switchuvm = λ stack d m. some m;
  filedup = λ f m. some m;
  fileclose = λ f m. some m;
  idup = λ ip m. m;
  iput = λ ip m. some m;
}

-- A machine on which no address space grows.
abbrev pub stuck_ops : Ops ℕ
stuck_ops = record page_ops { allocuvm = λ d old new m. some (0, m) }

-- A machine without a free page.
abbrev pub empty_ops : Ops ℕ
empty_ops = record page_ops { kalloc = λ m. (0, m) }

abbrev pub blank : Proc
blank = record {
  kstack = 0;
  state = unused;
  pid = 0;
  parent = 0;
  tf = 0;
  context = 0;
  chan = 0;
  killed = 0;
  name = λ _. 0;
  share_ptr = 0;
  order_of_thread = 0;
  retval = 0;
  im_master = 0;
  stack = 0;
}

-- init at 1, a shell at 2 with a second thread at 3, and a child of the shell that has ended at 4
abbrev pub table : ℕ → Proc
table p =
    if p == 1
    then record blank { kstack = 1001; state = running; pid = 1; share_ptr = 10; im_master = 1 }
    else if p == 2
    then record blank {
      kstack = 1002;
      state = running;
      pid = 2;
      parent = 1;
      share_ptr = 20;
      im_master = 1;
    }
    else if p == 3
    then record blank {
      kstack = 1003;
      state = running;
      pid = 3;
      parent = 1;
      share_ptr = 20;
      order_of_thread = 1;
    }
    else if p == 4
    then record blank {
      kstack = 1004;
      state = zombie;
      pid = 4;
      parent = 2;
      share_ptr = 40;
      im_master = 1;
    }
    else blank

abbrev no_group : SharedData
no_group = record {
  sz = 0;
  pgdir = 0;
  ofile = λ _. 0;
  cwd = 0;
  num_of_thread = 0;
  threads = λ _. 0;
  is_there = λ _. 0;
}

-- The group of init has no free index.
abbrev pub groups : ℕ → SharedData
groups a =
    if a == 10
    then record no_group { sz = 4096; num_of_thread = 6; threads = λ _. 1; is_there = λ _. 1 }
    else if a == 20
    then record no_group {
      sz = 8192;
      pgdir = 500;
      num_of_thread = 2;
      threads = λ i. if i == 0 then 2 else if i == 1 then 3 else 0;
      is_there = λ i. if i == 0 then 1 else if i == 1 then 1 else 0;
    }
    else if a == 40
    then record no_group {
      sz = 4096;
      pgdir = 600;
      num_of_thread = 1;
      threads = λ i. if i == 0 then 4 else 0;
      is_there = λ i. if i == 0 then 1 else 0;
    }
    else no_group

abbrev pub boot : Kernel ℕ
boot = record {
  proc = table;
  shared = groups;
  frame = λ _. record { eax = 0; eip = 0; esp = 0; rest = [] };
  ctx = λ _. record { edi = 0; esi = 0; ebx = 0; ebp = 0; eip = 0 };
  word = λ _. 0;
  initproc = 1;
  next_pid = 5;
  lock = record { locked = false; cpu = 0 };
  cpu = record { ncli = 0; intena = false; iflag = true };
  env = 1;
}

-- The same kernel when the thread at 3 has ended with the value 42.
abbrev pub done : Kernel ℕ
done = set_proc 3 (λ p. record p { state = zombie; retval = 42 }) boot

pub boot-IsOpen : IsOpen boot
boot-IsOpen = ground arith

pub done-IsOpen : IsOpen done
done-IsOpen = ground arith

pub boot-HasPids : HasPids boot
boot-HasPids = record {
  positive = omega arith;
  below = λ p a b. ground arith;
  distinct = λ p q a b c d e. ground arith;
}

pub boot-IsSound : IsSound boot
boot-IsSound = record { lock = inl boot-IsOpen; pids = boot-HasPids }
