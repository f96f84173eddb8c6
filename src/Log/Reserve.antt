-- ===== src/Log/Reserve.antt =====
-- Reservations: an operation that makes at most MAXOPBLOCKS calls of `log_write` between its
-- `begin_op` and its `end_op` never finds the log full.
use os_project03_thread.Common.{
  ℕ, ◌+◌, ◌-◌, ◌*◌, ◌≤◌, ◌<◌, ◌≡◌, refl, arith, ◌∙◌, List, [], ◌∷◌, true, false, some, length,
}
use os_project03_thread.Disk.{Store}
use os_project03_thread.Log.{
  Log, maxopblocks, logsize, begin_op, end_op, commits, wakes, end_commit, commit,
}
use os_project03_thread.Log.Session.{
  Session, Step, begins, writes, ends, ends_last, finishes, Reach, here, next, total, Few,
  IsReserved, Spends_lem, Leaves_lem, total-Few, Spends-Few, Leaves-Few,
}
use os_project03_thread.Log.Slot.{log_write-some, log_write-distinct}

begin_op-some :
    (log log' : Log)
    → begin_op log ≡ some log'
    → log.lh.n ≤ logsize
    → log.outstanding ≤ logsize
    → (log.committing ≡ false)
      × (log.lh.n + (log.outstanding + 1) * maxopblocks ≤ logsize)
      × (log' ≡ record log { outstanding = log.outstanding + 1 })
unfolding begin_op
begin_op-some log log' h few small = ground arith

end_op-wakes :
    (log log' : Log)
    → end_op log ≡ wakes log'
    → 0 < log.outstanding
    → log.outstanding ≤ logsize
    → (log.committing ≡ false) × (log' ≡ record log { outstanding = log.outstanding - 1 })
unfolding end_op
end_op-wakes log log' h pos small = ground arith

end_op-commits :
    (log log' : Log)
    → end_op log ≡ commits log'
    → 0 < log.outstanding
    → log.outstanding ≤ logsize
    → (log.committing ≡ false)
      × (log.outstanding - 1 ≡ 0)
      × (log' ≡ record log { outstanding = log.outstanding - 1; committing = true })
unfolding end_op
end_op-commits log log' h pos small = ground arith

end_commit_log :
    (log : Log) (s : Store)
    → ((end_commit log s).0.lh.n ≡ 0)
      × ((end_commit log s).0.outstanding ≡ log.outstanding)
      × ((end_commit log s).0.size ≡ log.size)
      × ((end_commit log s).0.committing ≡ false)
unfolding end_commit commit
end_commit_log log s = ground arith

length_zero : (ks : List ℕ) → length ks ≡ 0 → ks ≡ []
unfolding length
length_zero [] h = refl
length_zero (k ∷ ks) h = absurd (omega arith)

-- Every step of the operations keeps the reservations.
pub Step-IsReserved : {t u : Session} → Step t u → IsReserved t → IsReserved u
unfolding length total Few
Step-IsReserved (begins {log} {log'} {s} {ks} e) r =
    let (idle, room, same) =
      begin_op-some log log' e (omega (arith, r.fits)) (omega (arith, r.counted, r.small)) in
    rw same (record {
      counted = omega (arith, r.counted);
      small = omega (arith, room, r.counted);
      fits = omega (arith, room, r.counted, total-Few ks r.few);
      few = (omega arith, r.few);
      idle = λ c. absurd (ground arith);
      sized = r.sized;
      distinct = r.distinct;
    })
Step-IsReserved (writes {log} {log'} {s} {s'} {ks} {js} b before sp e) r =
    let (less, long, some_left) = Spends_lem sp in
    record {
      counted = rw (log_write-some b before log log' s s' e) (omega (arith, r.counted));
      small = omega (arith, r.small);
      fits = rw (log_write-some b before log log' s s' e) (ground (arith, r.fits));
      few = Spends-Few sp r.few;
      idle = λ c. absurd (ground (arith, r.idle, log_write-some b before log log' s s' e));
      sized = rw (log_write-some b before log log' s s' e) r.sized;
      distinct = log_write-distinct b before log log' s s' e r.distinct;
    }
Step-IsReserved (ends {log} {log'} {s} {ks} {js} l e) r =
    let (less, long) = Leaves_lem l in
    let (busy, same) =
      end_op-wakes log log' e (omega (arith, r.counted)) (omega (arith, r.counted, r.small)) in
    rw same (record {
      counted = omega (arith, r.counted);
      small = omega (arith, r.small);
      fits = omega (arith, r.fits);
      few = Leaves-Few l r.few;
      idle = λ c. absurd (ground arith);
      sized = r.sized;
      distinct = r.distinct;
    })
Step-IsReserved (ends_last {log} {log'} {s} {ks} {js} l e) r =
    let (less, long) = Leaves_lem l in
    let (busy, none_left, same) =
      end_op-commits log log' e (omega (arith, r.counted)) (omega (arith, r.counted, r.small)) in
    rw same (record {
      counted = omega (arith, r.counted);
      small = omega (arith, r.small);
      fits = omega (arith, r.fits);
      few = Leaves-Few l r.few;
      idle = λ c. length_zero js (omega (arith, r.counted));
      sized = r.sized;
      distinct = r.distinct;
    })
Step-IsReserved (finishes {log} {s} {ks} e) r =
    let (empty, out, size, free) = end_commit_log log s in
    record {
      counted = out ∙ r.counted;
      small = r.small;
      fits = omega (arith, r.fits, empty);
      few = r.few;
      idle = λ c. r.idle e;
      sized = rw size r.sized;
      distinct = λ i j x y. absurd (omega (arith, empty));
    }

pub Reach-IsReserved : {t u : Session} → Reach t u → IsReserved t → IsReserved u
Reach-IsReserved here r = r
Reach-IsReserved (next h st) r = Step-IsReserved st (Reach-IsReserved h r)
