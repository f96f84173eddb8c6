-- ===== src/Examples/Pipes.antt =====
-- Runs of the pipe.
use os_project03_thread.Common.{ℕ, ◌≡◌, refl, true, false, [], ◌∷◌, length, arith}
use os_project03_thread.Pipe.{Pipe, pipewrite_loop, piperead, returns, readers, writers}
use os_project03_thread.Pipe.Ring.{count, contents, IsRing}
use os_project03_thread.Pipe.Laws.{Written, pipewrite-Written}
use os_project03_thread.Pipe.Queue.{pipewrite-piperead}

abbrev empty_pipe : Pipe
empty_pipe = record { data_at = λ _. 5; nread = 7; nwrite = 7; readopen = true; writeopen = true }

empty_count : count empty_pipe ≡ 0
unfolding count
empty_count = refl

empty_pipe-IsRing : IsRing empty_pipe
empty_pipe-IsRing = record {
  small = (omega arith, omega arith);
  bounded = rw empty_count (omega arith);
}

pipewrite-Written_example :
    Written 2 empty_pipe (65 ∷ 66 ∷ []) (pipewrite_loop false 2 (65 ∷ 66 ∷ []) empty_pipe)
pipewrite-Written_example = pipewrite-Written false 2 (65 ∷ 66 ∷ []) empty_pipe empty_pipe-IsRing

two_bytes : length {A = ℕ} (65 ∷ 66 ∷ []) ≡ 2
unfolding length
two_bytes = refl

pipewrite-piperead_example :
    (q q' : Pipe) × (pipewrite_loop false 2 (65 ∷ 66 ∷ []) empty_pipe
      ≡ record { pipe = q; wakes = readers ∷ []; end = returns 2 })
    × (piperead false 10 q ≡ (
      65 ∷ 66 ∷ [],
      record { pipe = q'; wakes = writers ∷ []; end = returns (length {A = ℕ} (65 ∷ 66 ∷ [])) },
    ))
    × (contents q' ≡ [])
pipewrite-piperead_example =
    pipewrite-piperead false 65 (66 ∷ []) empty_pipe 2 10 empty_pipe-IsRing empty_count
      (rw two_bytes (omega arith)) (rw two_bytes (omega arith))
