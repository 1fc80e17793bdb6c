-- ===== src/Socket/Extension.antt =====
-- utp_internal.cpp: the extension headers of a packet, as `utp_process_incoming` skips them. The `data`
-- pointer is the list of the bytes from there to the packet's end.
pub mod Chain
use go_libutp.Prelude.{
  ℕ, zero, suc, ◌+◌, Bool, true, false, ◌||◌, ◌&&◌, not, Option, none, some, List, [], ◌∷◌, ltb,
  ◌==◌, if◌then◌else◌, get_or, take, drop, length,
}

-- A selective acknowledgment: `selack_ptr[-1]`, and the bytes from `selack_ptr` on.
pub record Selack : Type 0 where
  pub len : ℕ
  pub mask : List ℕ

-- What the loop has found: the last selective acknowledgment and the last extension bits.
pub record Found : Type 0 where
  pub selack : Option Selack
  pub extensions : Option (List ℕ)

-- The outcome: the packet is refused, or its payload is reached. What was found before a refusal has
-- already been copied into the socket.
pub data Unpacked : Type 0 where
  refused : Found → Unpacked
  payload : Found → List ℕ → Unpacked

-- One extension of kind `kind`, `rest` bytes from its body on, `len` of them its own.
unfoldable pub read_extension : ℕ → ℕ → List ℕ → Found → Found
read_extension kind len rest found =
    if kind == 1
    then record found { selack = some (record { len = len; mask = rest }) }
    else (if kind == 2 then record found { extensions = some (take 8 rest) } else found)

-- The loop for the extension `kind`, at `data`, on fuel. The fuel of `unpack` is enough: every round
-- consumes two bytes.
unfoldable pub unpack_loop : ℕ → ℕ → List ℕ → Found → Unpacked
unfolding read_extension
unpack_loop zero kind bytes found = refused found
unpack_loop (suc fuel) kind bytes found =
    let next = get_or bytes 0 0 in
    let len = get_or bytes 1 0 in
    let rest = drop 2 bytes in
    let seen = read_extension kind len rest found in
    let more = unpack_loop fuel next (drop len rest) seen in
    if ltb (length bytes) 2 || ltb (length rest) len || (kind == 2 && not (len == 8))
    then refused found
    else (if next == 0 then payload seen (drop len rest) else more)

-- The bytes after the header of a packet whose `ext` is `kind`.
unfoldable pub unpack : ℕ → List ℕ → Unpacked
unfolding unpack_loop
unpack kind bytes =
    let found : Found = record { selack = none; extensions = none } in
    if kind == 0 then payload found bytes else unpack_loop (suc (length bytes)) kind bytes found
