-- ===== src/Context/Rst.antt =====
-- When a packet of no connection is answered with an RST.
use go_libutp.Prelude.{
  ℕ, suc, ◌%◌, ◌^◌, ◌≤◌, ◌<◌, ◌≡◌, refl, ap, inl, inr, Bool, true, false, ◌||◌, Option, none, some,
  List, [], ◌∷◌, ◌++◌, ltb, ==_iff, length, arith, Bool-cases,
}
use go_libutp.Packet.{Header, packet_type, set_type, set_version, st_reset}
use go_libutp.Mtu.{header_size}
use go_libutp.SockAddr.{PackedSockAddr}
use go_libutp.SockAddr.Laws.{same_addr_iff}
use go_libutp.Socket.{Env, sendto}
use go_libutp.Context.{
  RstInfo, World, is_sent, refresh, rst_info_limit, refuse_packet, get_milliseconds_now, send_rst,
}

-- An RST for the packet is in the list.
abbrev pub is_known : PackedSockAddr → ℕ → ℕ → List RstInfo → Bool
is_known addr id seq_nr [] = false
is_known addr id seq_nr (r ∷ rs) = is_sent addr id seq_nr r || is_known addr id seq_nr rs

module _ (addr : PackedSockAddr) (id seq_nr now : ℕ) where
  is_sent_new :
      is_sent addr id seq_nr (record { addr = addr; connid = id; ack_nr = seq_nr; timestamp = now })
      ≡ true
  unfolding is_sent
  is_sent_new =
      rw ((==_iff id id).1 refl, (==_iff seq_nr seq_nr).1 refl, (same_addr_iff addr addr).1 refl)
        refl

  pub is_known-snoc :
      (rs : List RstInfo) (r : RstInfo)
      → is_sent addr id seq_nr r ≡ true
      → is_known addr id seq_nr (rs ++ r ∷ []) ≡ true
  is_known-snoc [] r h = rw h refl
  is_known-snoc (x ∷ rs) r h = ground (arith, is_known-snoc rs r h)

  pub length-snoc : (rs : List RstInfo) (r : RstInfo) → length (rs ++ r ∷ []) ≡ suc (length rs)
  length-snoc [] r = refl
  length-snoc (x ∷ rs) r = omega (arith, length-snoc rs r)

  -- What the loop leaves: one RST is as new if there is one.
  Refreshed : List RstInfo → Option (List RstInfo) → Type 0
  Refreshed rs none = is_known addr id seq_nr rs ≡ false
  Refreshed rs (some rs') =
      (is_known addr id seq_nr rs ≡ true)
      × (is_known addr id seq_nr rs' ≡ true)
      × (length rs' ≡ length rs)

  passed_over :
      (r : RstInfo) (rs : List RstInfo) (o : Option (List RstInfo))
      → is_sent addr id seq_nr r ≡ false
      → Refreshed rs o
      → Refreshed (r ∷ rs) (elim o [ none ↦ none | some rs' ↦ some (r ∷ rs') ])
  unfolding Refreshed
  passed_over r rs none miss known = rw miss known
  passed_over r rs (some rs') miss (known, kept, len) = rw miss (known, kept, ap suc len)

  refresh-Refreshed : (rs : List RstInfo) → Refreshed rs (refresh addr id seq_nr now rs)
  unfolding refresh Refreshed is_sent
  refresh-Refreshed [] = refl
  refresh-Refreshed (r ∷ rs) = elim (Bool-cases (is_sent addr id seq_nr r)) [
    | inl hit ↦
        let still : is_sent addr id seq_nr (record r { timestamp = now }) ≡ true = hit in
        rw (hit, refresh) (rw hit refl, rw still refl, refl)
    | inr miss ↦
        rw (miss, refresh)
          (passed_over r rs (refresh addr id seq_nr now rs) miss (refresh-Refreshed rs))
  ]

-- What becomes of a packet that belongs to no connection.
pub data Refusal (addr : PackedSockAddr) (id seq_nr : ℕ) (w w' : World) : Type 0 where
  repeated :
      is_known addr id seq_nr w.rst_info ≡ true
      → is_known addr id seq_nr w'.rst_info ≡ true
      → length w'.rst_info ≡ length w.rst_info
      → w'.ctx.events ≡ w.ctx.events
      → Refusal addr id seq_nr w w'
  full :
      is_known addr id seq_nr w.rst_info ≡ false
      → rst_info_limit < length w.rst_info
      → w'.rst_info ≡ w.rst_info
      → w'.ctx.events ≡ w.ctx.events
      → Refusal addr id seq_nr w w'
  answered :
      is_known addr id seq_nr w.rst_info ≡ false
      → length w.rst_info ≤ rst_info_limit
      → is_known addr id seq_nr w'.rst_info ≡ true
      → length w'.rst_info ≡ suc (length w.rst_info)
      → (h : Header) → (packet_type h ≡ st_reset) × (h.connid ≡ id % 2 ^ 16) × (h.ack_nr ≡ seq_nr)
      → w'.ctx.events ≡ sendto h [] header_size 0 ∷ w.ctx.events
      → Refusal addr id seq_nr w w'

-- A packet that belongs to no connection is answered with one RST for its identifier and its number,
-- which is then in the list; but with nothing if such an RST is in the list, or if the list is full.
pub refuse_packet-Refusal :
    (env : Env) (addr : PackedSockAddr) (id seq_nr : ℕ) (w : World)
    → Refusal addr id seq_nr w (refuse_packet env addr id seq_nr w)
unfolding refuse_packet send_rst Refreshed packet_type set_type set_version
refuse_packet-Refusal env addr id seq_nr w =
    decided (refresh addr id seq_nr now w.rst_info)
      (refresh-Refreshed addr id seq_nr now w.rst_info) refl
  where
    now : ℕ
    now = (get_milliseconds_now env w).ctx.current_ms

    decided :
        (o : Option (List RstInfo))
        → Refreshed addr id seq_nr now w.rst_info o
        → refresh addr id seq_nr now w.rst_info ≡ o
        → Refusal addr id seq_nr w (refuse_packet env addr id seq_nr w)
    decided none new e = elim (Bool-cases (ltb rst_info_limit (length w.rst_info))) [
      | inl many ↦ rw (refuse_packet, e, many) (full new (ground arith) refl refl)
      | inr few ↦
          rw (refuse_packet, e, few)
            (answered new (ground arith)
              (is_known-snoc addr id seq_nr now w.rst_info _ (is_sent_new addr id seq_nr now))
              (length-snoc addr id seq_nr now w.rst_info _) _ (refl, refl, refl) refl)
    ]
    decided (some rs) (known, kept, len) e = rw (refuse_packet, e) (repeated known kept len refl)
