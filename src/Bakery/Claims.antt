-- ===== src/Bakery/Claims.antt =====
-- What one thread of the bakery may rely on about another.
use os_project03_thread.Common.{ℕ, ◌≤◌, ◌<◌, ◌≡◌, ◌⊎◌, Bool, true, false}
use os_project03_thread.Bakery.{
  Shared, Pc, idle, calls_max, scan, rereads, announced, look, see_zero, see_less, see_tie, inside,
  adding, finished,
}

-- The thread has set its number, and not yet given it up.
abbrev pub has_number : Pc → Bool
has_number idle = false
has_number calls_max = false
has_number (scan p x) = false
has_number (rereads p) = false
has_number finished = false
has_number _ = true

-- `choosing` is set.
abbrev pub in_doorway : Pc → Bool
in_doorway calls_max = true
in_doorway (scan p x) = true
in_doorway (rereads p) = true
in_doorway announced = true
in_doorway _ = false

-- The thread has a number, and its doorway is behind it.
abbrev pub is_past_door : Pc → Bool
is_past_door announced = false
is_past_door p = has_number p

-- What a thread's place says about its own shared variables.
pub record IsLocal (m : Shared) (i : ℕ) (p : Pc) : Type 0 where
  pub numbered : has_number p ≡ true → 0 < m.number i
  pub unnumbered : has_number p ≡ false → m.number i ≡ 0
  pub open_door : in_doorway p ≡ true → m.choosing i ≡ 1
  pub shut_door : in_doorway p ≡ false → m.choosing i ≡ 0

-- The turn of `i` comes before that of `k`.
abbrev pub Before : Shared → ℕ → ℕ → Type 0
Before m i k = (m.number i < m.number k) ⊎ ((m.number i ≡ m.number k) × (i < k))

-- The thread `k`, at `q`, will not go before `i`: it has a later number, or will take one.
abbrev pub Behind : Shared → ℕ → ℕ → Pc → Type 0
Behind m i k idle = Unit
Behind m i k calls_max = Unit
Behind m i k (scan p x) = i < p → m.number i ≤ x
Behind m i k (rereads p) = i < p → m.number i ≤ m.number p
Behind m i k finished = Unit
Behind m i k _ = Before m i k

-- ... or it has had its number since before `i` looked.
abbrev pub Half : Shared → ℕ → ℕ → Pc → Type 0
Half m i k q = Behind m i k q ⊎ (is_past_door q ≡ true)

abbrev pub Tie : Shared → ℕ → ℕ → Pc → Type 0
Tie m i k q = Behind m i k q ⊎ ((is_past_door q ≡ true) × (m.number k ≡ m.number i) × (k < i))

-- What the place `p` of thread `i` says about the thread `k` at `q`.
abbrev pub Claim : Shared → ℕ → Pc → ℕ → Pc → Type 0
Claim m i (look j) k q = k < j → Behind m i k q
Claim m i (see_zero j) k q = (k < j → Behind m i k q) × (k ≡ j → Half m i k q)
Claim m i (see_less j) k q = (k < j → Behind m i k q) × (k ≡ j → Half m i k q)
Claim m i (see_tie j) k q = (k < j → Behind m i k q) × (k ≡ j → Tie m i k q)
Claim m i (inside c) k q = Behind m i k q
Claim m i (adding c v) k q = Behind m i k q
Claim m i _ k q = Unit
