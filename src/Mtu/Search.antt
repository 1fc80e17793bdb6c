-- ===== src/Mtu/Search.antt =====
-- The MTU search run against a path: full-size probes up to the path's MTU arrive, larger ones are lost.
use native.Mathlib.Nat.{pow-suc}
use native.Mathlib.Decide.{dec_lt}
use go_libutp.Prelude.{
  ℕ, zero, suc, ◌+◌, ◌-◌, ◌*◌, ◌/◌, ◌^◌, ◌≤◌, ◌<◌, ◌≡◌, ◌⊎◌, inl, inr, false, leb, ◌==◌,
  if◌then◌else◌, sub32, arith, Bool-cases, ==_iff, leb→le, leb→lt,
}
use go_libutp.Mtu.{Mtu, mtu_search_update, probe_acked, probe_lost}

-- One probe of the size in use, on a path of MTU `path`.
unfoldable pub probe : Mtu → ℕ → ℕ → Mtu
probe m path now =
    let sent = record m { probe_size = m.last } in
    if leb m.last path then probe_acked sent now else probe_lost sent now

-- At most `rounds` probes, until the range has closed.
unfoldable pub search_path : ℕ → Mtu → ℕ → ℕ → Mtu
search_path zero m path now = m
search_path (suc rounds) m path now =
    let rest = search_path rounds (probe m path now) path now in
    if m.floor == m.ceiling then m else rest

-- The path's MTU lies in a range that is still open, and the size in use is its middle.
pub record IsOpen (m : Mtu) (path : ℕ) : Type 0 where
  pub low : m.floor ≤ path
  pub high : path ≤ m.ceiling
  pub wide : m.floor + 16 < m.ceiling
  pub middle : m.last ≡ (m.floor + m.ceiling) / 2
  pub small : m.ceiling < 2 ^ 31

-- The range has closed on a size that passes, within 16 bytes of the path's MTU.
pub record IsFound (m : Mtu) (path : ℕ) : Type 0 where
  pub closed : m.ceiling ≡ m.floor
  pub used : m.last ≡ m.floor
  pub passes : m.floor ≤ path
  pub near : path ≤ m.floor + 16

update_narrow :
    (m : Mtu) (now path : ℕ)
    → m.floor ≤ path
    → path ≤ m.floor + 16
    → m.floor ≤ m.ceiling
    → m.ceiling ≤ m.floor + 16
    → m.ceiling < 2 ^ 31
    → IsFound (mtu_search_update m now) path
unfolding mtu_search_update
update_narrow m now path lo near ord narrow small = ground arith

update_wide :
    (m : Mtu) (now path : ℕ)
    → m.floor ≤ path
    → path ≤ m.ceiling
    → m.floor + 16 < m.ceiling
    → m.ceiling < 2 ^ 31
    → IsOpen (mtu_search_update m now) path
      × ((mtu_search_update m now).floor ≡ m.floor)
      × ((mtu_search_update m now).ceiling ≡ m.ceiling)
unfolding mtu_search_update
update_wide m now path lo hi wide small = ground arith

-- The outcome of one probe.
abbrev Halved : Mtu → ℕ → Mtu → Type 0
Halved m path n =
    IsFound n path ⊎ (IsOpen n path × (2 * (n.ceiling - n.floor) ≤ m.ceiling - m.floor + 1))

narrowed :
    (m n : Mtu) (path now : ℕ)
    → n.floor ≤ path
    → path ≤ n.ceiling
    → n.floor ≤ n.ceiling
    → n.ceiling < 2 ^ 31
    → 2 * (n.ceiling - n.floor) ≤ m.ceiling - m.floor + 1
    → Halved m path (mtu_search_update n now)
narrowed m n path now lo hi ord small half = elim (dec_lt (n.floor + 16) n.ceiling) [
  | yes wide ↦
      let (still, f, c) = update_wide n now path lo hi wide small in inr (still, rw (f, c) half)
  | no narrow ↦ inl (update_narrow n now path lo (omega arith) ord (omega arith) small)
]

-- A probe settles the search, or leaves it open with at most half of the range (rounded up).
probe_lem : (m : Mtu) (path now : ℕ) → IsOpen m path → Halved m path (probe m path now)
unfolding probe probe_acked probe_lost
probe_lem m path now o = elim (Bool-cases (leb m.last path)) [
  | inl fits ↦ simp fits (
      narrowed m (record m { probe_size = m.last; floor = m.last }) path now (leb→le _ _ fits)
        o.high (omega arith) o.small (omega arith))
  | inr lost ↦ simp lost (
      narrowed m (record m { probe_size = m.last; ceiling = sub32 m.last 1 }) path now o.low
        (omega (arith, leb→lt _ _ lost)) (omega arith) (omega arith) (omega arith))
]

search_path-IsFound :
    (rounds : ℕ) (m : Mtu) (path now : ℕ)
    → IsFound m path
    → IsFound (search_path rounds m path now) path
unfolding search_path
search_path-IsFound zero m path now f = f
search_path-IsFound (suc rounds) m path now f = rw ((==_iff m.floor m.ceiling).1 (omega arith)) f

-- From an open range of at most 16 * 2 ^ rounds bytes that holds the path's MTU, that many probes (or
-- fewer) close the search on a size that passes and is at most 16 bytes below the path's MTU.
pub search_path_finds :
    (rounds : ℕ) (m : Mtu) (path now : ℕ)
    → IsOpen m path
    → m.ceiling - m.floor ≤ 2 ^ rounds * 16
    → IsFound (search_path rounds m path now) path
unfolding search_path
search_path_finds zero m path now o h = absurd (omega arith)
search_path_finds (suc rounds) m path now o h =
    rw (open_test m path o) (elim (probe_lem m path now o) [
      | inl f ↦ search_path-IsFound rounds (probe m path now) path now f
      | inr (o', half) ↦
          search_path_finds rounds (probe m path now) path now o' (omega (arith, pow-suc 2 rounds))
    ])
  where
    open_test : (n : Mtu) (p : ℕ) → IsOpen n p → (n.floor == n.ceiling) ≡ false
    open_test n p q = ground arith
