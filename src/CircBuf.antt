-- ===== src/CircBuf.antt =====
-- utp_internal.cpp: `SizableCircularBuffer`, the ring of packet pointers behind the send queue and the
-- reorder buffer. A null pointer is `none`; `elements` itself is never null after the socket's creation.
pub mod Window
pub mod Entries
mod Tests
use go_libutp.Prelude.{
  ℕ, zero, suc, ◌+◌, ◌-◌, ◌*◌, ◌%◌, ◌^◌, Bool, true, false, Option, none, some, List, [], ◌∷◌, ltb,
  leb, if◌then◌else◌, add64, sub64, get_or, set, replicate,
}
use go_libutp.Seq.{and_mask}

-- `mask` is the size less one.
pub record CircBuf {ℓ} (A : Type ℓ) : Type ℓ where
  pub mask : ℕ
  pub elements : List (Option A)

-- `do size *= 2; while (index >= size)`, on fuel.
unfoldable pub grown_size : ℕ → ℕ → ℕ → ℕ
grown_size zero size index = size * 2
grown_size (suc fuel) size index =
    let rest = grown_size fuel (size * 2) index in if leb (size * 2) index then rest else size * 2

module _ {ℓ} {A : Type ℓ} where
  abbrev pub size : CircBuf A → ℕ
  size b = b.mask + 1

  unfoldable pub get : CircBuf A → ℕ → Option A
  get b i = get_or b.elements (and_mask i b.mask) none

  unfoldable pub put : CircBuf A → ℕ → Option A → CircBuf A
  put b i x = record b { elements = set b.elements (and_mask i b.mask) x }

  -- The copying loop of `grow`, for `n` more values of `i`: `base` is `item - index`, and `buf` the
  -- new buffer.
  unfoldable pub copy_loop : ℕ → ℕ → ℕ → CircBuf A → CircBuf A → CircBuf A
  copy_loop zero i base old buf = buf
  copy_loop (suc n) i base old buf =
      copy_loop n (i + 1) base old (put buf (add64 base i) (get old (add64 base i)))

  -- The loop's fuel is `index`: the size is at least 1 and doubles.
  unfoldable pub grow : CircBuf A → ℕ → ℕ → CircBuf A
  grow b item index =
      let new_size = grown_size index (b.mask + 1) index in
      let buf : CircBuf A = record { mask = new_size - 1; elements = replicate new_size none } in
      copy_loop (b.mask + 1) 0 (sub64 item index) b buf

  unfoldable pub ensure_size : CircBuf A → ℕ → ℕ → CircBuf A
  ensure_size b item index = if ltb b.mask index then grow b item index else b

  -- As at the creation of a socket: `mask = 15`, and sixteen null pointers.
  unfoldable pub create : CircBuf A
  create = record { mask = 15; elements = replicate 16 none }
