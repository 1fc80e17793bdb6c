-- ===== src/HashTable.antt =====
-- utp_hash.cpp, utp_hash.h: the hash table of sockets. Elements stand in one array and are chained by
-- their indices; the chains of the buckets start in `inits`, that of the deleted elements in `free`.
-- An array is a function from indices, and an element that was never written is arbitrary.
pub mod Chains
pub mod Layout
pub mod Unlink
pub mod Exchange
pub mod Cell
pub mod Delete
pub mod Add
pub mod Iterate
pub mod Removed
pub mod Visited
mod Tests
use go_libutp.Prelude.{
  ℕ, zero, suc, ◌+◌, ◌-◌, ◌*◌, ◌/◌, ◌%◌, ◌^◌, ◌≡◌, ◌↔◌, Bool, true, false, not, Option, none, some,
  leb, ltb, ◌==◌, if◌then◌else◌,
}

-- `LIBUTP_HASH_UNUSED`, the link that leads nowhere.
abbrev pub unused : ℕ
unused = 0xFFFFFFFF

-- The template's argument `K`: the hash of a key, and the test of two keys.
pub record Key : Type 1 where
  pub Carrier : Type 0
  pub compute_hash : Carrier → ℕ
  pub same : Carrier → Carrier → Bool
  pub same_iff : (a b : Carrier) → (same a b ≡ true) ↔ (a ≡ b)

-- The template's argument `T`, with the value that its user keeps in it.
pub record Elem (K V : Type 0) : Type 0 where
  pub key : K
  pub value : V
  pub link : ℕ

-- `utp_hash_t`.
pub record Table (K V : Type 0) : Type 0 where
  pub n : ℕ
  pub count : ℕ
  pub allocated : ℕ
  pub used : ℕ
  pub free : ℕ
  pub inits : ℕ → ℕ
  pub elems : ℕ → Elem K V

abbrev pub write : {A : Type 0} → (ℕ → A) → ℕ → A → ℕ → A
write a i x j = if j == i then x else a j

-- A table with room for `initial` elements; `blank` is an element of zeros.
unfoldable pub create : {K V : Type 0} → ℕ → ℕ → Elem K V → Table K V
create n initial blank = record {
  n = n;
  count = 0;
  allocated = initial;
  used = 0;
  free = unused;
  inits = λ b. unused;
  elems = λ i. blank;
}

-- Where a link stands: `curp` in `utp_hash_del`.
pub data Place : Type 0 where
  init : ℕ → Place
  link_of : ℕ → Place

module _ {K V : Type 0} where
  abbrev pub read_place : Table K V → Place → ℕ
  read_place t (init b) = t.inits b
  read_place t (link_of i) = (t.elems i).link

  abbrev pub set_link : Table K V → ℕ → ℕ → Table K V
  set_link t i l = record t { elems = write t.elems i (record (t.elems i) { link = l }) }

  abbrev pub write_place : Table K V → Place → ℕ → Table K V
  write_place t (init b) l = record t { inits = write t.inits b l }
  write_place t (link_of i) l = set_link t i l

  -- Room for one more element: the array is doubled when it is full, up to all that a link can name.
  unfoldable pub grow : Table K V → Option (Table K V)
  grow t =
      if not (t.used == t.allocated)
      then some t
      else (if leb t.allocated (unused / 2)
          then some (record t { allocated = t.allocated * 2 })
          else (if not (t.allocated == unused)
              then some (record t { allocated = unused })
              else none))

  -- The cell of a new element: a deleted one, or the next of the array.
  unfoldable pub take_cell : Table K V → Option (ℕ × Table K V)
  unfolding grow
  take_cell t =
      if t.free == unused
      then (elim (grow t) [
        | none ↦ none
        | some t' ↦ some (t'.used, record t' { used = t'.used + 1 })
      ])
      else some (t.free, record t { free = (t.elems t.free).link })

  -- A found element leaves its chain, whose link to it stands in `p`, for the list of deleted ones.
  unfoldable pub unlink : Table K V → Place → ℕ → Table K V
  unlink t p cur =
      let t1 = write_place t p (t.elems cur).link in
      let t2 = set_link t1 cur t1.free in record t2 { free = cur; count = t2.count - 1 }

-- `utp_hash_iterator_t`.
pub record Iterator : Type 0 where
  pub bucket : ℕ
  pub elem : ℕ

abbrev pub fresh_iterator : Iterator
fresh_iterator = record { bucket = unused; elem = unused }

module _ {K V : Type 0} where
  -- The next bucket with an element, from `buck` on, among the `left` buckets that there are from there.
  unfoldable pub next_bucket : Table K V → ℕ → ℕ → Option ℕ
  next_bucket t zero buck = none
  next_bucket t (suc left) buck =
      let more = next_bucket t left (suc buck) in if t.inits buck == unused then more else some buck

  advance : Table K V → ℕ → ℕ → ℕ × Iterator
  advance t bucket elem = (elem, record { bucket = bucket; elem = (t.elems elem).link })

  -- The index of the next element, if there is one.
  unfoldable pub iterate : Table K V → Iterator → Option (ℕ × Iterator)
  unfolding next_bucket advance
  iterate t it =
      let first = (it.bucket + 1) % 2 ^ 32 in
      if it.elem == unused
      then (elim (next_bucket t (t.n - first) first) [
        | none ↦ none
        | some b ↦ some (advance t b (t.inits b))
      ])
      else some (advance t it.bucket it.elem)

module _ (key : Key) where
  open key use {Carrier, compute_hash, same}

  unfoldable pub mkidx : {V : Type 0} → Table Carrier V → Carrier → ℕ
  mkidx t k = compute_hash k % t.n

  -- The loop of `utp_hash_lookup`, on fuel: the index of the element.
  unfoldable pub lookup_loop : {V : Type 0} → Table Carrier V → Carrier → ℕ → ℕ → Option ℕ
  lookup_loop t k zero cur = none
  lookup_loop t k (suc fuel) cur =
      let rest = lookup_loop t k fuel (t.elems cur).link in
      if cur == unused then none else (if same k (t.elems cur).key then some cur else rest)

  -- A chain has at most as many elements as are used.
  unfoldable pub lookup : {V : Type 0} → Table Carrier V → Carrier → Option ℕ
  unfolding mkidx lookup_loop
  lookup t k = lookup_loop t k (t.used + 1) (t.inits (mkidx t k))

  -- The new element is the first of its chain. Its value is what the cell held.
  unfoldable pub link_in : {V : Type 0} → Table Carrier V → Carrier → ℕ → Table Carrier V
  unfolding mkidx
  link_in t k elem = record t {
    elems = write t.elems elem (record (t.elems elem) { key = k; link = t.inits (mkidx t k) });
    inits = write t.inits (mkidx t k) elem;
    count = t.count + 1;
  }

  -- The index of the new element, or none if the table is full.
  unfoldable pub add : {V : Type 0} → Table Carrier V → Carrier → Option ℕ × Table Carrier V
  unfolding take_cell link_in
  add t k = elim (take_cell t) [
    | none ↦ (none, t)
    | some (elem, t') ↦ (some elem, link_in t' k elem)
  ]

  abbrev pub set_value : {V : Type 0} → Table Carrier V → ℕ → V → Table Carrier V
  set_value t elem v = record t { elems = write t.elems elem (record (t.elems elem) { value = v }) }

  -- The caller's `Add(key)->socket = conn`.
  unfoldable pub add_value : {V : Type 0} → Table Carrier V → Carrier → V → Table Carrier V
  unfolding add
  add_value t k v =
      let (added, t') = add t k in elim added [ none ↦ t' | some elem ↦ set_value t' elem v ]

  -- The loop of `utp_hash_del`: where the link to the element stands, and its index.
  unfoldable pub find_link :
      {V : Type 0} → Table Carrier V → Carrier → ℕ → Place → Option (Place × ℕ)
  find_link t k zero p = none
  find_link t k (suc fuel) p =
      let cur = read_place t p in
      let rest = find_link t k fuel (link_of cur) in
      if cur == unused then none else (if same k (t.elems cur).key then some (p, cur) else rest)

  -- The index of the deleted element, if it was there.
  unfoldable pub delete : {V : Type 0} → Table Carrier V → Carrier → Option ℕ × Table Carrier V
  unfolding mkidx find_link unlink
  delete t k = elim (find_link t k (t.used + 1) (init (mkidx t k))) [
    | none ↦ (none, t)
    | some (p, cur) ↦ (some cur, unlink t p cur)
  ]
