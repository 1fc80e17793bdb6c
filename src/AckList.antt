-- ===== src/AckList.antt =====
-- utp_internal.cpp: the context's list of sockets with an acknowledgment due, `ack_sockets`, with the
-- position `ida` that each socket keeps in it (`schedule_ack`, `removeSocketFromAckList`,
-- the loop of `utp_issue_deferred_acks`).
-- The `ida` fields of all sockets stand together here, since removing one socket writes the field of
-- another: `none` is the value -1. A socket is a number, standing for its address.
pub mod Laws
mod Tests
use go_libutp.Prelude.{
  ℕ, zero, suc, ◌-◌, Bool, true, false, Option, none, some, List, [], ◌∷◌, ◌++◌, if◌then◌else◌,
  ◌==◌, length, get_elem?, set, take,
}

pub record AckList : Type 0 where
  pub sockets : List ℕ
  pub ida : ℕ → Option ℕ

unfoldable pub update : (ℕ → Option ℕ) → ℕ → Option ℕ → ℕ → Option ℕ
update f k v s = if s == k then v else f s

-- `schedule_ack`: `Append` returns the index of the new element.
unfoldable pub schedule : AckList → ℕ → AckList
unfolding update
schedule l self = elim (l.ida self) [
  | none ↦ record l {
    sockets = l.sockets ++ self ∷ [];
    ida = update l.ida self (some (length l.sockets));
  }
  | some i ↦ l
]

-- The last socket takes the place of the removed one. With an empty array, which the assertions
-- exclude, the list stays as it is.
unfoldable pub move_last : AckList → ℕ → ℕ → Option ℕ → AckList
unfolding update
move_last l self i none = l
move_last l self i (some last) = record l {
  sockets = take (length l.sockets - 1) (set l.sockets i last);
  ida = update (update l.ida last (some i)) self none;
}

unfoldable pub remove : AckList → ℕ → AckList
unfolding move_last
remove l self = elim (l.ida self) [
  | none ↦ l
  | some i ↦ move_last l self i (get_elem? l.sockets (length l.sockets - 1))
]

-- The loop of `utp_issue_deferred_acks`, on fuel: `i` stays 0, since sending the acknowledgment of
-- the first socket removes it. The sockets are returned in the order in which they acknowledge.
unfoldable pub drain : ℕ → AckList → List ℕ × AckList
drain zero l = ([], l)
drain (suc fuel) l = elim (get_elem? l.sockets 0) [
  | none ↦ ([], l)
  | some s ↦ let rest = drain fuel (remove l s) in (s ∷ rest.0, rest.1)
]
