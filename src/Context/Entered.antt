-- ===== src/Context/Entered.antt =====
-- What a datagram does to the table of sockets and to the list of RSTs.
use go_libutp.Prelude.{
  ℕ, ◌≤◌, ◌≡◌, refl, sym, ◌∙◌, subst, inl, inr, Bool, true, ◌&&◌, ◌||◌, not, Option, none, some,
  List, ltb, ◌==◌, if◌then◌else◌, length, arith, Bool-cases, Option-cases, if_both, add32, drop,
}
use go_libutp.Packet.{Header, decode, packet_type, utp_version, st_syn, st_reset}
use go_libutp.Mtu.{header_size}
use go_libutp.HashTable.{add_value}
use go_libutp.HashTable.Layout.{Models, lookup-Models}
use go_libutp.HashTable.Add.{add_value-Models}
use go_libutp.SockAddr.{PackedSockAddr, SockAddr, SocketKey, same_key, same_addr, set_sockaddr}
use go_libutp.SockAddr.Laws.{socket_key}
use go_libutp.Socket.{Env}
use go_libutp.Socket.Ccontrol.{Double}
use go_libutp.Context.{
  RstInfo, World, key_of, socket_at, conn_at, refresh, rst_info_limit, refuse_packet,
  get_milliseconds_now,
}
use go_libutp.Context.Rst.{Refusal, repeated, full, answered, refuse_packet-Refusal}
use go_libutp.Socket.Teardown.{find_socket}
use go_libutp.Context.Udp.{
  receiver, open_incoming, max_sockets, process_syn, process_known, process_rst, utp_process_udp,
}

-- The map of a table with one more socket.
abbrev pub with_socket : (SocketKey → Option ℕ) → SocketKey → ℕ → SocketKey → Option ℕ
with_socket f k s q = if same_key q k then some s else f q

-- The sockets that are known after a datagram from `addr` with the identifier `id`: those known before,
-- or one more.
pub data Entry (f : SocketKey → Option ℕ) (addr : PackedSockAddr) (id ptr : ℕ) (w w' : World)
    : Type 0 where
  same_sockets : Models socket_key f w'.utp_sockets → Entry f addr id ptr w w'
  one_more :
      f (key_of addr (add32 id 1)) ≡ none
      → w.has_on_accept ≡ true
      → w.utp_sockets.count ≤ max_sockets
      → Models socket_key (with_socket f (key_of addr (add32 id 1)) ptr) w'.utp_sockets
      → Entry f addr id ptr w w'

-- The table and the list of RSTs stay.
abbrev Keeps : World → World → Type 0
Keeps w w' = (w'.utp_sockets ≡ w.utp_sockets) × (w'.rst_info ≡ w.rst_info)

receiver-Keeps : (w : World) (addr : PackedSockAddr) (id : ℕ) → Keeps w (receiver w addr id).1
unfolding receiver
receiver-Keeps w addr id = elim (Option-cases w.last_utp_socket) [
  | inl e ↦ rw (e, receiver) looked_up
  | inr (s, e) ↦
      rw (e, receiver)
        (if_both (λ (r : Option ℕ × World). Keeps w r.1)
          (same_addr (w.socks s).addr addr && (w.socks s).conn.ids.conn_id_recv == id) (refl, refl)
          looked_up)
]
  where
    looked_up :
        Keeps w
          (elim (socket_at w addr id) as (λ o. Option ℕ × World) [
            | none ↦ (none, w)
            | some s ↦ (some s, record w { last_utp_socket = some s })
          ]).1
    looked_up =
        elim (socket_at w addr id)
          as (λ o.
            Keeps w
              (elim o as (λ o. Option ℕ × World) [
                | none ↦ (none, w)
                | some s ↦ (some s, record w { last_utp_socket = some s })
              ]).1) [ none ↦ (refl, refl) | some s ↦ (refl, refl) ]

module _ (double : Double) (env : Env) (addr : PackedSockAddr) (h : Header) where
  process_rst-Keeps : (len : ℕ) (w : World) → Keeps w (process_rst double env addr h len w)
  unfolding process_rst
  process_rst-Keeps len w = elim (Option-cases (find_socket (conn_at w addr) h.connid)) [
    | inl e ↦ rw (e, process_rst) (refl, refl)
    | inr (c, e) ↦ rw (e, process_rst) (refl, refl)
  ]

  refuse_table :
      (w : World) → (refuse_packet env addr h.connid h.seq_nr w).utp_sockets ≡ w.utp_sockets
  unfolding refuse_packet
  refuse_table w =
      let w1 = get_milliseconds_now env w in
      elim (Option-cases (refresh addr h.connid h.seq_nr w1.ctx.current_ms w1.rst_info)) [
        | inr (rs, e) ↦ rw (e, refuse_packet) refl
        | inl e ↦
            rw (e, refuse_packet)
              (if_both (λ (w' : World). w'.utp_sockets ≡ w.utp_sockets)
                (ltb rst_info_limit (length w1.rst_info)) refl refl)
      ]

  abbrev route : List ℕ → World → World
  route bytes w =
      let (known, w1) = receiver w addr h.connid in
      elim known [
        | some s ↦ process_known double env s h bytes w1
        | none ↦ refuse_packet env addr h.connid h.seq_nr w1
      ]

  -- A packet that is no SYN and no RST reaches its socket, or is refused.
  routed_table : (bytes : List ℕ) (w : World) → (route bytes w).utp_sockets ≡ w.utp_sockets
  unfolding process_known
  routed_table bytes w =
      let r = receiver w addr h.connid in
      let same = (receiver-Keeps w addr h.connid).0 in
      elim (Option-cases r.0) [
        | inl e ↦ rw (e, route) (refuse_table r.1 ∙ same)
        | inr (s, e) ↦ rw (e, route, process_known) same
      ]

-- What every refusal of a packet keeps of the list of RSTs, every datagram keeps.
module _ (double : Double) (env : Env) (P : List RstInfo → Type 0)
    (refusal_keeps : (addr : PackedSockAddr) (id seq_nr : ℕ) (w : World)
      → P w.rst_info
      → P (refuse_packet env addr id seq_nr w).rst_info) where
  kept_of : (w w' : World) → Keeps w w' → P w.rst_info → P w'.rst_info
  kept_of w w' k holds = subst P (sym k.1) holds

  module _ (addr : PackedSockAddr) (h : Header) (bytes : List ℕ) (w : World)
      (holds : P w.rst_info) where
    routed_rst : P (route double env addr h bytes w).rst_info
    unfolding process_known
    routed_rst =
        let r = receiver w addr h.connid in
        let holds1 : P r.1.rst_info = kept_of w r.1 (receiver-Keeps w addr h.connid) holds in
        elim (Option-cases r.0) [
          | inl e ↦ rw (e, route) (refusal_keeps addr h.connid h.seq_nr r.1 holds1)
          | inr (s, e) ↦ rw (e, route, process_known) holds1
        ]

    process_syn_rst : (ptr : ℕ) → P (process_syn double env ptr addr h bytes w).rst_info
    unfolding process_syn open_incoming
    process_syn_rst ptr = elim (Option-cases (socket_at w addr (add32 h.connid 1))) [
      | inr (s, e) ↦ rw (e, process_syn) holds
      | inl e ↦
          rw (e, process_syn)
            (if_both (λ (w' : World). P w'.rst_info)
              (not w.has_on_accept || ltb max_sockets w.utp_sockets.count) holds
              (if_both (λ (w' : World). P w'.rst_info) (env.on_firewall w.ctx.calls) holds holds))
    ]

  pub utp_process_udp_rst :
      (ptr : ℕ) (buffer : List ℕ) (to : SockAddr) (w : World)
      → P w.rst_info
      → P (utp_process_udp double env ptr buffer to w).1.rst_info
  unfolding utp_process_udp
  utp_process_udp_rst ptr buffer to w holds =
      let addr = set_sockaddr to in
      let h = decode buffer in
      let bytes = drop header_size buffer in
      let Q : Bool × World → Type 0 = λ r. P r.1.rst_info in
      if_both Q (ltb (length buffer) header_size || not (utp_version h == 1)) holds (
        if_both Q (packet_type h == st_reset)
          (kept_of w (process_rst double env addr h (length buffer) w)
            (process_rst-Keeps double env addr h (length buffer) w) holds)
          (if_both Q (packet_type h == st_syn) (process_syn_rst addr h bytes w holds ptr)
            (routed_rst addr h bytes w holds)))

module _ (double : Double) (env : Env) (f : SocketKey → Option ℕ) (w : World)
    (m : Models socket_key f w.utp_sockets) where
  entered_or_not :
      (ptr : ℕ) (addr : PackedSockAddr) (id : ℕ) (blocked : Bool) (w1 w2 : World)
      → f (key_of addr (add32 id 1)) ≡ none
      → w1.utp_sockets ≡ w.utp_sockets
      → w2.utp_sockets ≡ add_value socket_key w.utp_sockets (key_of addr (add32 id 1)) ptr
      → Entry f addr id ptr w (
          if not w.has_on_accept || ltb max_sockets w.utp_sockets.count
          then w
          else (if blocked then w1 else w2))
  entered_or_not ptr addr id blocked w1 w2 new e1 e2 =
      let key = key_of addr (add32 id 1) in
      elim (Bool-cases (not w.has_on_accept || ltb max_sockets w.utp_sockets.count)) [
        | inl closed ↦ rw closed (same_sockets m)
        | inr taken ↦
            let few : w.utp_sockets.count ≤ max_sockets = ground arith in
            rw taken (
              if_both (Entry f addr id ptr w) blocked
                (same_sockets (subst (Models socket_key f) (sym e1) m))
                (one_more new (ground arith) few (
                  subst (Models socket_key (with_socket f key ptr)) (sym e2) (
                    add_value-Models socket_key f w.utp_sockets key ptr m new
                      (omega (arith, few))))))
      ]

  process_syn-Entry :
      (ptr : ℕ) (addr : PackedSockAddr) (h : Header) (bytes : List ℕ)
      → Entry f addr h.connid ptr w (process_syn double env ptr addr h bytes w)
  unfolding process_syn open_incoming socket_at
  process_syn-Entry ptr addr h bytes = elim (Option-cases (socket_at w addr (add32 h.connid 1))) [
    | inr (s, e) ↦ rw (e, process_syn) (same_sockets m)
    | inl e ↦
        rw (e, process_syn)
          (entered_or_not ptr addr h.connid (env.on_firewall w.ctx.calls) _ _
            (sym (lookup-Models socket_key f w.utp_sockets (key_of addr (add32 h.connid 1)) m) ∙ e)
            refl refl)
  ]

  -- A datagram of any kind, however malformed, leaves the table of sockets well formed, with the same
  -- sockets or with one more: only if its key was not in the table, if connections are accepted, and if
  -- there are at most 3000 of them.
  pub utp_process_udp-Entry :
      (ptr : ℕ) (buffer : List ℕ) (to : SockAddr)
      → Entry f
          (set_sockaddr to)
          (decode buffer).connid
          ptr
          w
          (utp_process_udp double env ptr buffer to w).1
  unfolding utp_process_udp
  utp_process_udp-Entry ptr buffer to =
      let addr = set_sockaddr to in
      let h = decode buffer in
      let P : Bool × World → Type 0 = λ r. Entry f addr h.connid ptr w r.1 in
      if_both P (ltb (length buffer) header_size || not (utp_version h == 1)) (same_sockets m) (
        if_both P (packet_type h == st_reset)
          (kept _ (process_rst-Keeps double env addr h (length buffer) w).0)
          (if_both P (packet_type h == st_syn)
            (process_syn-Entry ptr addr h (drop header_size buffer))
            (kept _ (routed_table double env addr h (drop header_size buffer) w))))
    where
      kept :
          (w' : World)
          → w'.utp_sockets ≡ w.utp_sockets
          → Entry f (set_sockaddr to) (decode buffer).connid ptr w w'
      kept w' e = same_sockets (subst (Models socket_key f) (sym e) m)

refused_limit :
    (addr : PackedSockAddr) (id seq_nr : ℕ) (w w' : World)
    → Refusal addr id seq_nr w w'
    → length w.rst_info ≤ 1001
    → length w'.rst_info ≤ 1001
refused_limit addr id seq_nr w w' (repeated _ _ len _) few = omega (arith, len, few)
refused_limit addr id seq_nr w w' (full _ _ same _) few =
    subst (λ rs. length rs ≤ 1001) (sym same) few
refused_limit addr id seq_nr w w' (answered _ room _ len _ _ _) few = omega (arith, len, room)

-- The list of the RSTs that were sent has at most 1001 entries, whatever datagrams come.
pub utp_process_udp_limit :
    (double : Double) (env : Env) (ptr : ℕ) (buffer : List ℕ) (to : SockAddr) (w : World)
    → length w.rst_info ≤ 1001
    → length (utp_process_udp double env ptr buffer to w).1.rst_info ≤ 1001
utp_process_udp_limit double env =
    utp_process_udp_rst double env (λ rs. length rs ≤ 1001)
      (λ addr id seq_nr w.
        refused_limit addr id seq_nr w _ (refuse_packet-Refusal env addr id seq_nr w))
