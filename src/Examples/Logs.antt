-- ===== src/Examples/Logs.antt =====
-- Runs of the log: a transaction of one block, and a session of one operation.
use os_project03_thread.Common.{
  ◌≡◌, ◌⊎◌, inr, refl, arith, true, false, none, some, [], ◌∷◌, ◌==◌, if◌then◌else◌,
}
use os_project03_thread.Disk.{Block, Blocks, Store}
use os_project03_thread.Disk.Through.{Through}
use os_project03_thread.Log.{Log, commit}
use os_project03_thread.Log.Phase.{IsLaidOut, IsUntouched, IsDone, IsLogged, Phase, during}
use os_project03_thread.Log.Commit.{new_contents}
use os_project03_thread.Log.Recovery.{recovered, phase-Through, commit-Recovers}
use os_project03_thread.Log.Session.{Session}

-- The log begins at block 2; block 50 has been logged.
abbrev one_logged : Log
one_logged = record {
  start = 2;
  size = 31;
  outstanding = 0;
  committing = true;
  dev = 1;
  lh = record { n = 1; block = (λ i. 50) };
}

abbrev restarted : Log
restarted = record one_logged { committing = false; lh = record { n = 0; block = (λ i. 0) } }

abbrev sevens : Block
sevens a = 7

-- Block 50 is changed in the cache only.
abbrev changed : Store
changed = record {
  disk = (λ b a. 0);
  cache = (λ b. if b == 50 then some sevens else none);
  dirty = (λ b. b == 50);
  past = [];
}

one_logged-IsLaidOut : IsLaidOut one_logged
one_logged-IsLaidOut = record {
  distinct = λ i j p q ne. absurd (ne (omega arith));
  home = λ i p. inr (omega arith);
  room = omega arith;
}

commit-Recovers_example :
    Through
      (λ d.
        IsUntouched one_logged changed.disk (recovered restarted d).disk
        ⊎ IsDone one_logged changed.disk
            (new_contents one_logged changed)
            (recovered restarted d).disk)
      (IsDone one_logged changed.disk (new_contents one_logged changed))
      (commit one_logged changed).1
commit-Recovers_example =
    commit-Recovers one_logged restarted changed refl one_logged-IsLaidOut refl refl

-- A disk whose header names block 50, before block 50 is installed.
abbrev logged_disk : Blocks
logged_disk b a =
    if b == 2 then (if a == 0 then 1 else if a == 1 then 50 else 0) else if b == 3 then 7 else 0

logged_disk-IsLogged : IsLogged one_logged (λ b a. 0) (λ i. sevens) logged_disk
logged_disk-IsLogged = record {
  count = refl;
  names = λ i p. let first : i ≡ 0 = omega arith in rw first refl;
  copies = λ i p. let first : i ≡ 0 = omega arith in rw first refl;
  same = λ b out un. ground arith;
}

phase-Through_example :
    Through
      (Phase one_logged (λ b a. 0) (λ i. sevens))
      (λ c. IsUntouched one_logged (λ b a. 0) c ⊎ IsDone one_logged (λ b a. 0) (λ i. sevens) c)
      (recovered restarted logged_disk)
phase-Through_example =
    phase-Through one_logged restarted (λ b a. 0) (λ i. sevens) logged_disk refl
      one_logged-IsLaidOut (during logged_disk-IsLogged)

abbrev at_rest : Session
at_rest = record { log = restarted; store = changed; left = [] }

abbrev begun : Session
begun = record { log = record restarted { outstanding = 1 }; store = changed; left = 10 ∷ [] }
