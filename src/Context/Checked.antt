-- ===== src/Context/Checked.antt =====
-- The loop of `utp_check_timeouts`, which deletes from the table that it runs over.
use go_libutp.Prelude.{
  ℕ, zero, suc, ◌+◌, ◌<◌, ◌≤◌, ◌≡◌, ◌⊎◌, inl, inr, refl, ap, sym, ◌∙◌, subst, true, false, Option,
  some, List, [], ◌∷◌, ◌++◌, ◌==◌, if◌then◌else◌, arith, Bool-cases, length, ==_iff, ltb, sub64,
}
use go_libutp.HashTable.{Table, Iterator, unused, write, delete, fresh_iterator}
use go_libutp.HashTable.Chains.{has, without}
use go_libutp.HashTable.Exchange.{has_of_without}
use go_libutp.HashTable.Layout.{Layout, IsValid, Models, total}
use go_libutp.HashTable.Iterate.{
  flat, Ahead, ahead, Passes-has, iterate-Passes, fresh-Ahead, Passes-Ahead,
}
use go_libutp.HashTable.Removed.{Removed, Models-elem}
use go_libutp.HashTable.Visited.{Passes-Removed}
use go_libutp.SockAddr.{SocketKey}
use go_libutp.SockAddr.Laws.{socket_key}
use go_libutp.Socket.{Env, Ids, is_state, destroy}
use go_libutp.Socket.Timeout.{check_timeouts}
use go_libutp.Context.{World, conn_of, key_of, put_conn, get_milliseconds_now}
use go_libutp.Context.Check.{
  check_socket, check_loop, delete_socket, forget_loop, timeout_check_interval, utp_check_timeouts,
}
use go_libutp.Context.Ids.{check_timeouts-Has}

-- The sockets are checked one after the other.
abbrev pub check_all : Env → List ℕ → World → World
check_all env [] w = w
check_all env (s ∷ ss) w = check_all env ss (check_socket env s w)

-- The sockets of elements.
abbrev pub sockets_of : Table SocketKey ℕ → List ℕ → List ℕ
sockets_of t [] = []
sockets_of t (e ∷ es) = (t.elems e).value ∷ sockets_of t es

-- The key under which a socket stands in the table.
abbrev pub own_key : World → ℕ → SocketKey
own_key w s = key_of (w.socks s).addr (w.socks s).conn.ids.conn_id_recv

-- The table is well formed, and each socket stands under its own key.
pub record IsKeyed (t : Table SocketKey ℕ) (own : ℕ → SocketKey) (g : Layout) : Type 0 where
  pub valid : IsValid socket_key t g
  pub few : t.n ≤ unused
  pub keyed :
      (b e : ℕ) → b < t.n → has e (g.chains b) ≡ true → (t.elems e).key ≡ own (t.elems e).value

IsKeyed-own :
    (t : Table SocketKey ℕ) (own own' : ℕ → SocketKey) (g : Layout)
    → ((x : ℕ) → own' x ≡ own x)
    → IsKeyed t own g
    → IsKeyed t own' g
IsKeyed-own t own own' g h i = record {
  valid = i.valid;
  few = i.few;
  keyed = λ b e lt m. i.keyed b e lt m ∙ sym (h (t.elems e).value);
}

IsKeyed-Removed :
    (t t' : Table SocketKey ℕ) (own : ℕ → SocketKey) (g : Layout) (b e : ℕ)
    → IsKeyed t own g
    → Removed socket_key t g b e t'
    → IsKeyed t' own
        (record { chains = write g.chains b (without e (g.chains b)); frees = e ∷ g.frees })
IsKeyed-Removed t t' own g b e i r = record {
  valid = r.valid;
  few = omega (arith, r.n_kept, i.few);
  keyed = λ x j lt m.
      r.keys j ∙ i.keyed x j (omega (arith, r.n_kept)) (kept x j m) ∙ ap own (sym (r.values j));
}
  where
    kept :
        (x j : ℕ)
        → has j (if x == b then without e (g.chains b) else g.chains x) ≡ true
        → has j (g.chains x) ≡ true
    kept x j m = elim (Bool-cases (x == b)) [
      | inr other ↦ rw other at m
      | inl equal ↦
          ap (λ y. has j (g.chains y)) ((==_iff x b).0 equal)
          ∙ has_of_without j e (g.chains b) (rw equal at m)
    ]

sockets_of-same :
    (t t' : Table SocketKey ℕ) (es : List ℕ)
    → ((j : ℕ) → (t'.elems j).value ≡ (t.elems j).value)
    → sockets_of t' es ≡ sockets_of t es
sockets_of-same t t' [] h = refl
sockets_of-same t t' (e ∷ es) h = rw (h e, sockets_of-same t t' es h) refl

-- Checking a socket changes the key of none.
put_conn-own_key :
    (env : Env) (w : World) (s x : ℕ)
    → own_key (put_conn w s (check_timeouts env (conn_of w s))) x ≡ own_key w x
put_conn-own_key env w s x = elim (Bool-cases (x == s)) [
  | inr other ↦ rw other refl
  | inl at ↦
      subst (λ y. own_key (put_conn w s (check_timeouts env (conn_of w s))) y ≡ own_key w y)
        (sym ((==_iff x s).0 at))
        (rw ((==_iff s s).1 refl) (
          ap (λ (i : Ids). key_of (w.socks s).addr i.conn_id_recv)
            (check_timeouts-Has env (w.socks s).conn.ids (conn_of w s) refl)))
]

-- The table loses the socket that was checked, or stays.
check_socket_lem :
    (env : Env) (s : ℕ) (w : World)
    → let w' = check_socket env s w in
      ((x : ℕ) → own_key w' x ≡ own_key w x)
      × ((w'.utp_sockets ≡ w.utp_sockets)
          ⊎ (w'.utp_sockets ≡ (delete socket_key w.utp_sockets (own_key w s)).1))
unfolding check_socket delete_socket
check_socket_lem env s w =
    let c = check_timeouts env (conn_of w s) in
    elim (Bool-cases (is_state c.state destroy)) [
      | inr stays ↦ rw (stays, check_socket) (put_conn-own_key env w s, inl refl)
      | inl ends ↦
          rw (ends, check_socket)
            (
              put_conn-own_key env w s,
              inr (ap (λ q. (delete socket_key w.utp_sockets q).1) (put_conn-own_key env w s s)),
            )
    ]

-- From what is ahead of the iterator, each element is checked.
check_loop-all :
    (env : Env) (fuel : ℕ) (it : Iterator) (w : World) (g : Layout) (xs : List ℕ) (k : ℕ)
    → IsKeyed w.utp_sockets (own_key w) g
    → Ahead socket_key w.utp_sockets g it xs k
    → length (ahead g it xs k) < fuel
    → check_loop env fuel it w ≡ check_all env (sockets_of w.utp_sockets (ahead g it xs k)) w
unfolding check_loop
check_loop-all env zero it w g xs k i a h = absurd (omega arith)
check_loop-all env (suc fuel) it w g xs k i a h =
    elim (iterate-Passes socket_key w.utp_sockets g it xs k i.valid i.few a) [
      | inl (nothing, empty) ↦ rw (nothing, empty, check_loop) refl
      | inr p ↦
          let t = w.utp_sockets in
          let s = (t.elems p.e).value in
          let (a', rest) = Passes-Ahead socket_key t g it (ahead g it xs k) i.few p in
          let shorter : length (ahead g p.it' p.xs' p.k') < fuel = omega (arith, ap length rest) in
          let (same_keys, outcome) = check_socket_lem env s w in
          let w2 = check_socket env s w in
          let i2 = IsKeyed-own t (own_key w) (own_key w2) g same_keys i in
          rw (p.called, rest, check_loop)
            (elim outcome [
              | inl kept ↦
                  check_loop-all env fuel p.it' w2 g p.xs' p.k'
                    (subst (λ t'. IsKeyed t' (own_key w2) g) (sym kept) i2)
                    (subst (λ t'. Ahead socket_key t' g p.it' p.xs' p.k') (sym kept) a') shorter
                  ∙ ap (λ t'. check_all env (sockets_of t' (ahead g p.it' p.xs' p.k')) w2) kept
              | inr gone ↦
                  let b = p.it'.bucket in
                  let g2 : Layout = record {
                    chains = write g.chains b (without p.e (g.chains b));
                    frees = p.e ∷ g.frees;
                  } in
                  let t2 = (delete socket_key t (t.elems p.e).key).1 in
                  let (r, a2, same) =
                    Passes-Removed socket_key t g it (ahead g it xs k) i.valid i.few p in
                  let e2 : w2.utp_sockets ≡ t2 =
                    gone
                    ∙ ap (λ q. (delete socket_key t q).1)
                        (sym (
                          i.keyed b p.e p.inside
                            (Passes-has socket_key t g it (ahead g it xs k) p))) in
                  check_loop-all env fuel p.it' w2 g2 p.xs' p.k'
                    (subst (λ t'. IsKeyed t' (own_key w2) g2) (sym e2)
                      (IsKeyed-Removed t t2 (own_key w2) g b p.e i2 r))
                    (subst (λ t'. Ahead socket_key t' g2 p.it' p.xs' p.k') (sym e2) a2)
                    (omega (arith, shorter, ap length same))
                  ∙ ap (λ es. check_all env (sockets_of w2.utp_sockets es) w2) same
                  ∙ ap (λ ss. check_all env ss w2)
                      (sockets_of-same t w2.utp_sockets (ahead g p.it' p.xs' p.k')
                        (λ j. ap (λ (t' : Table SocketKey ℕ). (t'.elems j).value) e2 ∙ r.values j))
            ])
    ]

length-++ : (xs ys : List ℕ) → length (xs ++ ys) ≡ length xs + length ys
length-++ [] ys = omega arith
length-++ (x ∷ xs) ys = omega (arith, length-++ xs ys)

length-flat :
    (chains : ℕ → List ℕ) (k b : ℕ)
    → length (flat chains k b) + total chains b ≡ total chains (b + k)
length-flat chains zero b =
    let same : total chains b ≡ total chains (b + 0) = ap (total chains) (omega arith) in
    omega (arith, same)
length-flat chains (suc k) b =
    let more = length-flat chains k (suc b) in
    let both : total chains (suc b + k) ≡ total chains (b + suc k) =
      ap (total chains) (omega arith) in
    omega (arith, more, both, length-++ (chains b) (flat chains k (suc b)))

-- When at least half a second has passed since the last time, and the table of sockets stands for a map
-- in which each socket is under its own key, the timeouts of all these sockets are checked, each once and
-- in the order of the buckets, although sockets leave the table in between: the loop does the same as
-- checking one socket after the other of those that the table had at the start, with the clock set and
-- the old RSTs forgotten.
pub utp_check_timeouts_lem :
    (env : Env) (w : World) (f : SocketKey → Option ℕ)
    → (m : Models socket_key f w.utp_sockets) → w.utp_sockets.n ≤ unused
    → ((q : SocketKey) (s : ℕ) → f q ≡ some s → q ≡ own_key w s)
    → timeout_check_interval ≤ sub64 (env.get_milliseconds w.ctx.calls) w.last_check
    → let w1 = get_milliseconds_now env w in
      utp_check_timeouts env w
      ≡ check_all env
          (sockets_of w.utp_sockets (flat m.layout.chains w.utp_sockets.n 0))
          (record w1 {
            last_check = w1.ctx.current_ms;
            rst_info = forget_loop w1.ctx.current_ms (length w.rst_info) 0 w.rst_info;
          })
unfolding utp_check_timeouts
utp_check_timeouts_lem env w f m few owned h =
    let t = w.utp_sockets in
    let g = m.layout in
    let now = env.get_milliseconds w.ctx.calls in
    let due : ltb (sub64 now w.last_check) timeout_check_interval ≡ false = ground arith in
    let all = length-flat g.chains t.n 0 in
    let sum : total g.chains (0 + t.n) ≡ t.count =
      ap (total g.chains) (omega arith) ∙ m.valid.counted in
    let i : IsKeyed t (own_key w) g = record {
      valid = m.valid;
      few = few;
      keyed = λ b e lt inside. owned _ _ (Models-elem socket_key f t m b e lt inside);
    } in
    rw (utp_check_timeouts, due)
      (check_loop-all env (t.count + 1) fresh_iterator _ g [] t.n i (fresh-Ahead socket_key t g)
        (omega (arith, all, sum)))
