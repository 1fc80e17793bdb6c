-- ===== src/Socket/Incoming/Settled.antt =====
-- A whole incoming packet, and the send queue.
use go_libutp.Prelude.{
  ℕ, suc, ◌+◌, ◌-◌, ◌%◌, ◌^◌, ◌<◌, ◌≤◌, ◌≡◌, inl, inr, refl, ap, sym, ◌∙◌, subst, Bool, false, ◌&&◌,
  not, Option, none, some, List, ◌==◌, leb, leb→le, if◌then◌else◌, add16, sub32, sub64, arith,
  Bool-cases, Option-cases, if_both, length,
}
use go_libutp.Seq.{and_mask, ack_nr_mask, seq_nr_mask, wrapping_compare_less}
use go_libutp.CircBuf.{get}
use go_libutp.Mtu.{header_size}
use go_libutp.Packet.{Header, packet_type, st_state, st_data, st_num_states}
use go_libutp.Socket.{Env, Conn, is_state, syn_recv, syn_sent}
use go_libutp.Socket.Delay.{reported_delay}
use go_libutp.Socket.Ccontrol.{Double, apply_ccontrol}
use go_libutp.Socket.Extension.{Selack, Found, refused, payload, unpack, Unpacked}
use go_libutp.Socket.Arrival.{packets_past, schedule_ack}
use go_libutp.Socket.Arrival.Frame.{accept_payload-snd}
use go_libutp.Socket.Incoming.{
  begin_incoming, has_bad_ack, note_extensions, receive_numbers, refuse_number, acked_packets,
  count_duplicate, count_bytes, measure_delays, note_window, complete_incoming, complete_outgoing,
  advance_fast_resend, ack_loop, skip_loop, flush_nagle, retry_fast, settle,
  acknowledge_selectively, process_acks, process_unpacked, utp_process_incoming,
  reorder_buffer_max_size,
}
use go_libutp.Socket.Queue.Tidy.{IsTidy, IsTidy-cong, IsTidy-le}
use go_libutp.Socket.Queue.Moves.{Kept, Kept-same, send_packet-Kept}
use go_libutp.Socket.Queue.Selective.{selective_ack-Kept}
use go_libutp.Socket.Incoming.Acked.{ack_loop-Shrunk, skip_loop_lem}

flush_nagle-IsTidy :
    (env : Env) (k : ℕ) (c : Conn)
    → IsTidy k c.snd
    → k + 1 < 2 ^ 31
    → IsTidy (k + 1) (flush_nagle env c).snd
unfolding flush_nagle
flush_nagle-IsTidy env k c t few = elim (Bool-cases (c.snd.cur_window_packets == 1)) [
  | inr many ↦ rw many same
  | inl one ↦ rw one (elim (Option-cases (get c.snd.outbuf (sub64 c.snd.seq_nr 1))) [
    | inl e ↦ rw e same
    | inr (pkt, e) ↦ rw e (elim (Bool-cases (pkt.transmissions == 0)) [
      | inl z ↦ rw z (send_packet-Kept env k (sub64 c.snd.seq_nr 1) pkt c t e few).tidy
      | inr nz ↦ rw nz same
    ])
  ])
]
  where
    same : IsTidy (k + 1) c.snd
    same = IsTidy-le k (k + 1) c.snd t (omega arith)

retry_fast-IsTidy :
    (env : Env) (k : ℕ) (c : Conn)
    → IsTidy k c.snd
    → k + 1 < 2 ^ 31
    → IsTidy (k + 1) (retry_fast env c).snd
unfolding retry_fast
retry_fast-IsTidy env k c t few =
    if_both (λ (c' : Conn). IsTidy (k + 1) c'.snd) c.snd.fast_timeout
      (if_both (λ (c' : Conn). IsTidy (k + 1) c'.snd)
        (and_mask (sub64 c.snd.seq_nr c.snd.cur_window_packets) ack_nr_mask
          == c.snd.fast_resend_seq_nr)
        (elim (Option-cases (get c.snd.outbuf (sub64 c.snd.seq_nr c.snd.cur_window_packets))) [
          | inl e ↦ rw e same
          | inr (pkt, e) ↦ rw e (elim (Bool-cases (pkt.transmissions == 0)) [
            | inl z ↦ rw z same
            | inr nz ↦
                let marked = record c {
                  snd = record c.snd { fast_resend_seq_nr = add16 c.snd.fast_resend_seq_nr 1 };
                } in
                rw nz
                  (send_packet-Kept env k (sub64 c.snd.seq_nr c.snd.cur_window_packets) pkt marked
                    (IsTidy-cong k c.snd marked.snd t refl refl refl refl) e few).tidy
          ])
        ])
        (IsTidy-cong (k + 1) c.snd (record c.snd { fast_timeout = false }) same refl refl refl
          refl))
      same
  where
    same : IsTidy (k + 1) c.snd
    same = IsTidy-le k (k + 1) c.snd t (omega arith)

complete_incoming-snd : (f : ℕ) (c : Conn) → (complete_incoming f c).snd ≡ c.snd
unfolding complete_incoming
complete_incoming-snd f c =
    if_both (λ (c' : Conn). c'.snd ≡ c.snd) (f == st_data && is_state c.state syn_recv) refl refl

complete_outgoing-snd : (f acks : ℕ) (c : Conn) → (complete_outgoing f acks c).snd ≡ c.snd
unfolding complete_outgoing
complete_outgoing-snd f acks c =
    if_both (λ (c' : Conn). c'.snd ≡ c.snd) (f == st_state && is_state c.state syn_sent) refl
      (if_both (λ (c' : Conn). c'.snd ≡ c.snd) (c.fin_sent && c.snd.cur_window_packets == acks) refl
        refl)

advance_fast_resend-Kept :
    (k n : ℕ) (c : Conn) → IsTidy k c.snd → Kept k c.snd (advance_fast_resend n c).snd
unfolding advance_fast_resend
advance_fast_resend-Kept k n c t =
    let next = and_mask (n + 1) ack_nr_mask in
    if_both (λ (c' : Conn). Kept k c.snd c'.snd)
      (wrapping_compare_less c.snd.fast_resend_seq_nr next ack_nr_mask)
      (Kept-same k c.snd (record c.snd { fast_resend_seq_nr = next }) t refl refl refl refl)
      (Kept-same k c.snd c.snd t refl refl refl refl)

settle-IsTidy :
    (env : Env) (h : Header) (acks k : ℕ) (c : Conn)
    → IsTidy k c.snd
    → k + 2 < 2 ^ 31
    → IsTidy (k + 2) (settle env h acks c).snd
unfolding settle note_window
settle-IsTidy env h acks k c t few = elim (Bool-cases (leb acks c.snd.cur_window_packets)) [
  | inr out ↦ rw out (IsTidy-le k (k + 2) c.snd t (omega arith))
  | inl inside ↦
      let f = packet_type h in
      let noted = note_window h c in
      let opened = complete_outgoing f acks (complete_incoming f noted) in
      let same : opened.snd ≡ c.snd =
        complete_outgoing-snd f acks (complete_incoming f noted) ∙ complete_incoming-snd f noted in
      let advanced = advance_fast_resend-Kept k h.ack_nr opened (subst (IsTidy k) (sym same) t) in
      let c1 = advance_fast_resend h.ack_nr opened in
      let within : acks ≤ c1.snd.cur_window_packets =
        omega
          (arith, leb→le _ _ inside, advanced.packets_kept, ap (λ q. q.cur_window_packets) same) in
      let acked = ack_loop-Shrunk env acks k c1 advanced.tidy within in
      let c2 = ack_loop env acks c1 in
      let skipped = skip_loop_lem c2.snd.cur_window_packets k c2 acked.tidy (omega arith) in
      let c3 = skip_loop c2.snd.cur_window_packets c2 in
      let flushed = flush_nagle-IsTidy env k c3 skipped.0.tidy (omega arith) in
      rw inside (
        IsTidy-le (k + 1 + 1) (k + 2) (retry_fast env (flush_nagle env c3)).snd
          (retry_fast-IsTidy env (k + 1) (flush_nagle env c3) flushed (omega arith)) (omega arith))
]

acknowledge_selectively-IsTidy :
    (env : Env) (k pk_ack_nr : ℕ) (selack : Option Selack) (c : Conn)
    → IsTidy k c.snd
    → k + 4 < 2 ^ 31
    → IsTidy (k + 4) (acknowledge_selectively env pk_ack_nr selack c).snd
unfolding acknowledge_selectively
acknowledge_selectively-IsTidy env k n none c t few = IsTidy-le k (k + 4) c.snd t (omega arith)
acknowledge_selectively-IsTidy env k n (some s) c t few =
    (selective_ack-Kept env k (n + 2) s.mask s.len c t few).tidy

count_duplicate-IsTidy :
    (env : Env) (f n k : ℕ) (c : Conn) → IsTidy k c.snd → IsTidy k (count_duplicate env f n c).snd
unfolding count_duplicate
count_duplicate-IsTidy env f n k c t =
    if_both (λ (c' : Conn). IsTidy k c'.snd) (c.snd.cur_window_packets == 0) t
      (if_both (λ (c' : Conn). IsTidy k c'.snd)
        (n == and_mask (sub32 (sub32 c.snd.seq_nr c.snd.cur_window_packets) 1) ack_nr_mask
          && f == st_state)
        (IsTidy-cong k c.snd (record c.snd { duplicate_ack = (c.snd.duplicate_ack + 1) % 256 }) t
          refl refl refl refl)
        (IsTidy-cong k c.snd (record c.snd { duplicate_ack = 0 }) t refl refl refl refl))

count_bytes-snd :
    (env : Env) (n acks : ℕ) (selack : Option Selack) (c : Conn)
    → (count_bytes env n acks selack c).2.snd ≡ c.snd
unfolding count_bytes
count_bytes-snd env n acks none c = refl
count_bytes-snd env n acks (some s) c = refl

apply_ccontrol-snd :
    (double : Double) (c : Conn) (bytes rtt : ℕ) → (apply_ccontrol double c bytes rtt).snd ≡ c.snd
unfolding apply_ccontrol
apply_ccontrol-snd double c bytes rtt = refl

note_extensions-snd : (found : Found) (c : Conn) → (note_extensions found c).snd ≡ c.snd
unfolding note_extensions
note_extensions-snd found c = elim (Option-cases found.extensions) [
  | inl e ↦ rw e refl
  | inr (bits, e) ↦ rw e refl
]

receive_numbers-snd : (n : ℕ) (c : Conn) → (receive_numbers n c).snd ≡ c.snd
unfolding receive_numbers
receive_numbers-snd n c =
    if_both (λ (c' : Conn). c'.snd ≡ c.snd) (is_state c.state syn_sent) refl refl

refuse_number-snd : (f n : ℕ) (c : Conn) → (refuse_number f n c).snd ≡ c.snd
unfolding refuse_number schedule_ack
refuse_number-snd f n c =
    if_both (λ (c' : Conn). c'.snd ≡ c.snd)
      (leb (seq_nr_mask + 1 - reorder_buffer_max_size) n && not (f == st_state)) refl refl

process_acks-IsTidy :
    (double : Double) (env : Env) (time k : ℕ) (h : Header) (selack : Option Selack) (c : Conn)
    → IsTidy k c.snd
    → k + 6 < 2 ^ 31
    → IsTidy (k + 6) (process_acks double env time h selack c).snd
unfolding process_acks measure_delays
process_acks-IsTidy double env time k h selack c t few =
    let acks = acked_packets c.snd h.ack_nr in
    let c1 = count_duplicate env (packet_type h) h.ack_nr c in
    let counted = count_bytes env h.ack_nr acks selack c1 in
    let c3 = measure_delays time counted.1 h counted.2 in
    let c4 =
      if not (reported_delay h.reply_micro == 0) && leb 1 counted.0
      then apply_ccontrol double c3 counted.0 counted.1
      else c3 in
    let t3 : IsTidy k c3.snd =
      subst (IsTidy k) (sym (count_bytes-snd env h.ack_nr acks selack c1))
        (count_duplicate-IsTidy env (packet_type h) h.ack_nr k c t) in
    let t4 : IsTidy k c4.snd =
      if_both (λ (c' : Conn). IsTidy k c'.snd)
        (not (reported_delay h.reply_micro == 0) && leb 1 counted.0)
        (subst (IsTidy k) (sym (apply_ccontrol-snd double c3 counted.0 counted.1)) t3) t3 in
    IsTidy-le (k + 2 + 4) (k + 6) (process_acks double env time h selack c).snd
      (acknowledge_selectively-IsTidy env (k + 2) h.ack_nr selack (settle env h acks c4)
        (settle-IsTidy env h acks k c4 t4 (omega arith)) (omega arith))
      (omega arith)

process_unpacked-IsTidy :
    (double : Double) (env : Env) (time k : ℕ) (h : Header) (syn : Bool) (found : Found)
    (bytes : List ℕ) (c : Conn)
    → IsTidy k c.snd
    → k + 6 < 2 ^ 31
    → IsTidy (k + 6) (process_unpacked double env time h syn found bytes c).1.snd
unfolding process_unpacked
process_unpacked-IsTidy double env time k h syn found bytes c t few =
    let c1 = receive_numbers h.seq_nr (note_extensions found c) in
    let f = packet_type h in
    let seqnr = packets_past c1.rcv h.seq_nr in
    let t1 : IsTidy k c1.snd =
      subst (IsTidy k)
        (sym (receive_numbers-snd h.seq_nr (note_extensions found c) ∙ note_extensions-snd found c))
        t in
    let later = IsTidy-le k (k + 6) c1.snd t1 (omega arith) in
    let acked = process_acks double env time h found.selack c1 in
    if_both (λ (r : ℕ × Conn). IsTidy (k + 6) r.1.snd) syn later
      (if_both (λ (r : ℕ × Conn). IsTidy (k + 6) r.1.snd) (leb reorder_buffer_max_size seqnr)
        (subst (IsTidy (k + 6)) (sym (refuse_number-snd f seqnr c1)) later)
        (subst (IsTidy (k + 6)) (sym (accept_payload-snd env f h.seq_nr seqnr bytes acked))
          (process_acks-IsTidy double env time k h found.selack c1 t1 few)))

-- Whatever packet arrives on a socket whose send queue is tidy (a sound queue, no packet outside of its
-- window, none sent more than `k` times, `k` small), with whatever header, extensions, payload,
-- clocks and floats, processing it leaves a tidy send queue, with every packet sent six times more at
-- most: the bytes in flight stay those of the packets sent and not acknowledged.
pub utp_process_incoming-IsTidy :
    (double : Double) (env : Env) (k : ℕ) (h : Header) (bytes : List ℕ) (syn : Bool) (c : Conn)
    → IsTidy k c.snd
    → k + 6 < 2 ^ 31
    → IsTidy (k + 6) (utp_process_incoming double env h bytes syn c).1.snd
unfolding utp_process_incoming begin_incoming
utp_process_incoming-IsTidy double env k h bytes syn c t few =
    let c1 = begin_incoming env (header_size + length bytes) c in
    let time = env.get_microseconds c1.ctx.calls in
    let c2 = record c1 { ctx = record c1.ctx { calls = suc c1.ctx.calls } } in
    let later : IsTidy (k + 6) c.snd = IsTidy-le k (k + 6) c.snd t (omega arith) in
    let unpacked : Unpacked → ℕ × Conn = λ u. elim u [
      | refused found ↦ (0, note_extensions found c2)
      | payload found rest ↦ process_unpacked double env time h syn found rest c2
    ] in
    let kept : (u : Unpacked) → IsTidy (k + 6) (unpacked u).1.snd = λ u.
      elim u as (λ v. IsTidy (k + 6) (unpacked v).1.snd) [
        | refused found ↦ subst (IsTidy (k + 6)) (sym (note_extensions-snd found c2)) later
        | payload found rest ↦ process_unpacked-IsTidy double env time k h syn found rest c2 t few
      ] in
    if_both (λ (r : ℕ × Conn). IsTidy (k + 6) r.1.snd) (leb st_num_states (packet_type h)) later
      (if_both (λ (r : ℕ × Conn). IsTidy (k + 6) r.1.snd) (has_bad_ack c2 (packet_type h) h.ack_nr)
        later (kept (unpack h.ext bytes)))
