-- ===== src/Context/Once.antt =====
-- A packet of no connection that comes again: what is remembered of the RSTs that were sent.
use go_libutp.Prelude.{
  ℕ, suc, ◌<◌, ◌≡◌, ◌⊎◌, refl, ap, sym, ◌∙◌, subst, inl, inr, true, ◌||◌, Option, none, some, List,
  [], ◌∷◌, ◌++◌, ltb, length, arith, Bool-cases,
}
use go_libutp.SockAddr.{PackedSockAddr, SockAddr}
use go_libutp.Socket.{Env}
use go_libutp.Socket.Ccontrol.{Double}
use go_libutp.Context.{
  RstInfo, World, is_sent, refresh, rst_info_limit, refuse_packet, get_milliseconds_now,
}
use go_libutp.Context.Rst.{
  is_known, length-snoc, Refusal, repeated, full, answered, refuse_packet-Refusal,
}
use go_libutp.Context.Udp.{utp_process_udp}
use go_libutp.Context.Entered.{utp_process_udp_rst}

-- A datagram, and where a socket that it opens is allocated.
pub record Datagram : Type 0 where
  pub ptr : ℕ
  pub buffer : List ℕ
  pub to : SockAddr

-- The datagrams one after the other.
abbrev pub process_all : Double → Env → List Datagram → World → World
process_all double env [] w = w
process_all double env (d ∷ ds) w =
    process_all double env ds (utp_process_udp double env d.ptr d.buffer d.to w).1

module _ (addr : PackedSockAddr) (id seq_nr : ℕ) where
  -- An RST for the packet is in the list, or the list is full.
  abbrev IsSettled : List RstInfo → Type 0
  IsSettled rs = (is_known addr id seq_nr rs ≡ true) ⊎ (rst_info_limit < length rs)

  is_known-append :
      (rs : List RstInfo) (r : RstInfo)
      → is_known addr id seq_nr rs ≡ true
      → is_known addr id seq_nr (rs ++ r ∷ []) ≡ true
  is_known-append [] r h = cc h
  is_known-append (x ∷ rs) r h = elim (Bool-cases (is_sent addr id seq_nr x)) [
    | inl hit ↦ rw hit refl
    | inr miss ↦
        rw miss
          (is_known-append rs r (subst (λ b. (b || is_known addr id seq_nr rs) ≡ true) miss h))
  ]

  -- A list with the same RSTs, but for their times.
  SameRsts : List RstInfo → Option (List RstInfo) → Type 0
  SameRsts rs none = Unit {0}
  SameRsts rs (some rs') =
      (is_known addr id seq_nr rs' ≡ is_known addr id seq_nr rs) × (length rs' ≡ length rs)

  later_too :
      (r : RstInfo) (rs : List RstInfo) (o : Option (List RstInfo))
      → SameRsts rs o
      → SameRsts (r ∷ rs) (elim o [ none ↦ none | some rs' ↦ some (r ∷ rs') ])
  unfolding SameRsts
  later_too r rs none same = tt
  later_too r rs (some rs') (known, len) =
      (ap (λ b. is_sent addr id seq_nr r || b) known, ap suc len)

  -- The time of an RST does not matter for what is known.
  refresh-SameRsts :
      (other : PackedSockAddr) (id2 seq2 now : ℕ) (rs : List RstInfo)
      → SameRsts rs (refresh other id2 seq2 now rs)
  unfolding refresh SameRsts is_sent
  refresh-SameRsts other id2 seq2 now [] = tt
  refresh-SameRsts other id2 seq2 now (r ∷ rs) = elim (Bool-cases (is_sent other id2 seq2 r)) [
    | inl hit ↦ rw (hit, refresh) (refl, refl)
    | inr miss ↦
        rw (miss, refresh)
          (later_too r rs (refresh other id2 seq2 now rs) (refresh-SameRsts other id2 seq2 now rs))
  ]

  -- Refusing other packets leaves the packet settled.
  refuse_packet-IsSettled :
      (env : Env) (other : PackedSockAddr) (id2 seq2 : ℕ) (w : World)
      → IsSettled w.rst_info
      → IsSettled (refuse_packet env other id2 seq2 w).rst_info
  unfolding refuse_packet SameRsts
  refuse_packet-IsSettled env other id2 seq2 w settled =
      decided (refresh other id2 seq2 now w.rst_info)
        (refresh-SameRsts other id2 seq2 now w.rst_info) refl
    where
      now : ℕ
      now = (get_milliseconds_now env w).ctx.current_ms

      grown : (r : RstInfo) → IsSettled w.rst_info → IsSettled (w.rst_info ++ r ∷ [])
      grown r (inl known) = inl (is_known-append w.rst_info r known)
      grown r (inr many) = inr (omega (arith, many, length-snoc addr id seq_nr now w.rst_info r))

      refreshed :
          (rs : List RstInfo) → SameRsts w.rst_info (some rs) → IsSettled w.rst_info → IsSettled rs
      refreshed rs (known, len) (inl was) = inl (known ∙ was)
      refreshed rs (known, len) (inr many) = inr (omega (arith, len, many))

      decided :
          (o : Option (List RstInfo))
          → SameRsts w.rst_info o
          → refresh other id2 seq2 now w.rst_info ≡ o
          → IsSettled (refuse_packet env other id2 seq2 w).rst_info
      decided none same e = elim (Bool-cases (ltb rst_info_limit (length w.rst_info))) [
        | inl many ↦ rw (refuse_packet, e, many) settled
        | inr few ↦ rw (refuse_packet, e, few) (grown _ settled)
      ]
      decided (some rs) same e = rw (refuse_packet, e) (refreshed rs same settled)

  Refusal-IsSettled : (w w' : World) → Refusal addr id seq_nr w w' → IsSettled w'.rst_info
  Refusal-IsSettled w w' (repeated _ known _ _) = inl known
  Refusal-IsSettled w w' (full _ many same _) = inr (omega (arith, many, ap length same))
  Refusal-IsSettled w w' (answered _ _ known _ _ _ _) = inl known

  no_answer :
      (w w' : World)
      → IsSettled w.rst_info
      → Refusal addr id seq_nr w w'
      → w'.ctx.events ≡ w.ctx.events
  no_answer w w' settled (repeated _ _ _ same) = same
  no_answer w w' settled (full _ _ _ same) = same
  no_answer w w' (inl known) (answered new _ _ _ _ _ _) = cc (sym known ∙ new)
  no_answer w w' (inr many) (answered _ few _ _ _ _ _) = absurd (omega (arith, many, few))

  process_all-IsSettled :
      (double : Double) (env : Env) (ds : List Datagram) (w : World)
      → IsSettled w.rst_info
      → IsSettled (process_all double env ds w).rst_info
  process_all-IsSettled double env [] w settled = settled
  process_all-IsSettled double env (d ∷ ds) w settled =
      process_all-IsSettled double env ds (utp_process_udp double env d.ptr d.buffer d.to w).1 (
        utp_process_udp_rst double env IsSettled (refuse_packet-IsSettled env) d.ptr d.buffer d.to w
          settled)

-- A packet that belongs to no connection was refused; then any datagrams come, which may be refused
-- too. If the same packet is refused again after them, no datagram is sent for it and nothing else is
-- reported, as long as the timeout check has not run in between.
pub refuse_packet-twice :
    (double : Double) (env : Env) (addr : PackedSockAddr) (id seq_nr : ℕ) (ds : List Datagram)
    (w : World)
    → let w' = process_all double env ds (refuse_packet env addr id seq_nr w) in
      (refuse_packet env addr id seq_nr w').ctx.events ≡ w'.ctx.events
refuse_packet-twice double env addr id seq_nr ds w =
    let w1 = refuse_packet env addr id seq_nr w in
    let w' = process_all double env ds w1 in
    no_answer addr id seq_nr w' (refuse_packet env addr id seq_nr w')
      (process_all-IsSettled addr id seq_nr double env ds w1
        (Refusal-IsSettled addr id seq_nr w w1 (refuse_packet-Refusal env addr id seq_nr w)))
      (refuse_packet-Refusal env addr id seq_nr w')
