-- ===== src/Context/Deleted.antt =====
-- A socket that is deleted is not referred to any more.
use go_libutp.Prelude.{
  ℕ, ◌≡◌, ◌≢◌, inl, inr, Option, none, some, ◌==◌, if◌then◌else◌, Bool-cases, arith,
}
use go_libutp.AckList.Laws.{IsConsistent, remove_lem}
use go_libutp.HashTable.Layout.{Models}
use go_libutp.HashTable.Delete.{delete-Models}
use go_libutp.SockAddr.{SocketKey, same_key}
use go_libutp.SockAddr.Laws.{socket_key}
use go_libutp.Context.{World, key_of}
use go_libutp.Context.Check.{delete_socket}

abbrev pub without_key : (SocketKey → Option ℕ) → SocketKey → SocketKey → Option ℕ
without_key f k q = if same_key q k then none else f q

-- What refers to sockets: the table, the list of due acknowledgments and the last socket.
pub record IsForgotten (f : SocketKey → Option ℕ) (k : SocketKey) (s : ℕ) (w w' : World)
    : Type 0 where
  pub table : Models socket_key (without_key f k) w'.utp_sockets
  pub not_last : w'.last_utp_socket ≢ some s
  pub not_due : w'.ctx.ack_sockets.ida s ≡ none
  pub positions : IsConsistent w'.ctx.ack_sockets
  pub others_due :
      (t : ℕ) → t ≢ s → (w'.ctx.ack_sockets.ida t ≡ none → w.ctx.ack_sockets.ida t ≡ none)
  pub other_last : (t : ℕ) → t ≢ s → w.last_utp_socket ≡ some t → w'.last_utp_socket ≡ some t

-- The last socket, when `s` is deleted.
abbrev last_left : ℕ → Option ℕ → Option ℕ
last_left s o = elim o [ none ↦ none | some l ↦ if l == s then none else some l ]

-- When a socket is deleted, its key leaves the table and all other keys stay; the socket is in the list
-- of due acknowledgments no more, whose positions stay right, and all others stay in it; and it is not
-- the last socket used, which stays if it is another.
pub delete_socket-IsForgotten :
    (f : SocketKey → Option ℕ) (s : ℕ) (w : World)
    → Models socket_key f w.utp_sockets
    → IsConsistent w.ctx.ack_sockets
    → IsForgotten f
        (key_of (w.socks s).addr (w.socks s).conn.ids.conn_id_recv)
        s
        w
        (delete_socket s w)
unfolding delete_socket
delete_socket-IsForgotten f s w m c =
    let (right, gone, others) = remove_lem w.ctx.ack_sockets s c in
    record {
      table =
          (delete-Models socket_key f w.utp_sockets
            (key_of (w.socks s).addr (w.socks s).conn.ids.conn_id_recv) m).1;
      not_last = not_kept w.last_utp_socket;
      not_due = gone;
      positions = right;
      others_due = λ t ne. (others t ne).0;
      other_last = λ t ne e. kept w.last_utp_socket t ne e;
    }
  where
    not_kept : (o : Option ℕ) → last_left s o ≢ some s
    not_kept none h = cc h
    not_kept (some l) h = elim (Bool-cases (l == s)) [
      | inl same ↦ cc (rw same at h)
      | inr other ↦ ground (arith, h)
    ]

    kept : (o : Option ℕ) (t : ℕ) → t ≢ s → o ≡ some t → last_left s o ≡ some t
    kept none t ne h = cc h
    kept (some l) t ne h = ground (arith, h)
