-- ===== src/AckList/Tests.antt =====
-- Runs and witnesses of the list of due acknowledgments.
use go_libutp.Prelude.{
  ℕ, zero, suc, ◌≡◌, ◌≢◌, ◌↔◌, refl, Option, none, some, [], ◌∷◌, get_elem?, arith,
}
use go_libutp.AckList.{AckList, update, remove, move_last, drain}
use go_libutp.AckList.Laws.{IsConsistent, remove_lem, drain_lem, Drained}

abbrev positions : ℕ → Option ℕ
positions zero = none
positions (suc zero) = none
positions (suc (suc zero)) = some 0
positions (suc (suc (suc zero))) = some 1
positions (suc (suc (suc (suc s)))) = none

-- Sockets 2 and 3 have an acknowledgment due.
abbrev two_due : AckList
two_due = record { sockets = 2 ∷ 3 ∷ []; ida = positions }

two_due-IsConsistent : IsConsistent two_due
two_due-IsConsistent s i = (forward s i, backward s i)
  where
    forward : (t j : ℕ) → positions t ≡ some j → get_elem? (2 ∷ 3 ∷ []) j ≡ some t
    forward zero j e = cc
    forward (suc zero) j e = cc
    forward (suc (suc zero)) j e = ground arith
    forward (suc (suc (suc zero))) j e = ground arith
    forward (suc (suc (suc (suc t)))) j e = cc

    backward : (t j : ℕ) → get_elem? (2 ∷ 3 ∷ []) j ≡ some t → positions t ≡ some j
    backward t zero e = ground arith
    backward t (suc zero) e = ground arith
    backward t (suc (suc j)) e = cc

-- The last socket takes the freed place.
remove_first : ((remove two_due 2).sockets ≡ 3 ∷ []) × ((remove two_due 2).ida 3 ≡ some 0)
unfolding remove move_last update
remove_first = (refl, refl)

drained_order : (drain 2 two_due).0 ≡ 2 ∷ 3 ∷ []
unfolding drain remove move_last update
drained_order = refl

remove_lem_example :
    IsConsistent (remove two_due 2)
    × ((remove two_due 2).ida 2 ≡ none)
    × ((s : ℕ) → s ≢ 2 → ((remove two_due 2).ida s ≡ none) ↔ (positions s ≡ none))
remove_lem_example = remove_lem two_due 2 two_due-IsConsistent

drain_lem_example : Drained two_due (drain 2 two_due)
drain_lem_example = drain_lem 2 two_due two_due-IsConsistent (omega arith)
