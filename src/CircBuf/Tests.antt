-- ===== src/CircBuf/Tests.antt =====
-- Runs and witnesses of the circular buffer.
use go_libutp.Prelude.{
  ℕ, ◌-◌, ◌^◌, ◌≤◌, ◌<◌, ◌≡◌, refl, none, some, [], ◌∷◌, replicate, ◌++◌, add64, sub64, arith,
}
use go_libutp.CircBuf.{CircBuf, get, put, grown_size, copy_loop, grow, ensure_size}
use go_libutp.CircBuf.Window.{IsValid, ensure_size_lem}

-- A send queue that wraps: packets 65535 and 0 are in flight.
abbrev in_flight : CircBuf ℕ
in_flight = record { mask = 15; elements = some 20 ∷ replicate 14 none ++ some 10 ∷ [] }

in_flight-IsValid : IsValid in_flight
in_flight-IsValid = record { cells = refl; power = (4, refl, omega arith) }

in_flight_slots : (get in_flight 65535 ≡ some 10) × (get in_flight 0 ≡ some 20)
unfolding get
in_flight_slots = (refl, refl)

-- Growing for packet 15, 16 places after the oldest.
grown_slots :
    ((ensure_size in_flight 15 16).mask ≡ 31)
    × (get (ensure_size in_flight 15 16) (2 ^ 64 - 1) ≡ some 10)
    × (get (ensure_size in_flight 15 16) 0 ≡ some 20)
    × (get (ensure_size in_flight 15 16) 15 ≡ none)
unfolding get ensure_size grow grown_size copy_loop put
grown_slots = (refl, refl, refl, refl)

ensure_size_lem_example :
    ((j : ℕ)
      → j < 16
      → get (ensure_size in_flight 15 16) (add64 (sub64 15 16) j)
        ≡ get in_flight (add64 (sub64 15 16) j))
    × IsValid (ensure_size in_flight 15 16)
    × (16 ≤ (ensure_size in_flight 15 16).mask)
    × (15 ≤ (ensure_size in_flight 15 16).mask)
ensure_size_lem_example = ensure_size_lem in_flight 15 16 in_flight-IsValid (omega arith)
