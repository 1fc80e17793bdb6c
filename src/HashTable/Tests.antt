-- ===== src/HashTable/Tests.antt =====
-- Runs and witnesses of the hash table, with numbers for keys.
use go_libutp.Prelude.{ℕ, ◌≡◌, refl, Option, none, some, ◌==◌, ==_iff, if◌then◌else◌, arith}
use go_libutp.HashTable.{
  Key, Elem, Table, create, lookup, add, add_value, delete, take_cell, grow, link_in, mkidx,
  find_link, unlink,
}
use go_libutp.HashTable.Layout.{Models, value_at, create-Models, lookup-Models}
use go_libutp.HashTable.Add.{add_value-Models}
use go_libutp.HashTable.Delete.{delete-Models}

abbrev numbers : Key
numbers = record { Carrier = ℕ; compute_hash = λ k. k; same = λ a b. a == b; same_iff = ==_iff }

abbrev blank : Elem ℕ ℕ
blank = record { key = 0; value = 0; link = 0 }

abbrev nothing : ℕ → Option ℕ
nothing k = none

-- Two buckets, and room for one element.
abbrev empty : Table ℕ ℕ
empty = create 2 1 blank

empty-Models : Models numbers nothing empty
empty-Models = create-Models numbers 2 1 blank (omega arith) (omega arith) (omega arith)

abbrev with_five : ℕ → Option ℕ
with_five k = if k == 5 then some 50 else none

add_value-Models_example : Models numbers with_five (add_value numbers empty 5 50)
unfolding create
add_value-Models_example =
    add_value-Models numbers nothing empty 5 50 empty-Models refl (omega arith)

-- Keys 5 and 7 share a bucket; the array grows for the second.
abbrev one : Table ℕ ℕ
one = add_value numbers empty 5 50

abbrev two : Table ℕ ℕ
two = add_value numbers one 7 70

one-Models : Models numbers with_five one
unfolding create
one-Models = add_value-Models numbers nothing empty 5 50 empty-Models refl (omega arith)

abbrev with_both : ℕ → Option ℕ
with_both k = if k == 7 then some 70 else with_five k

two-Models : Models numbers with_both two
unfolding create add_value add take_cell grow link_in mkidx
two-Models = add_value-Models numbers with_five one 7 70 one-Models refl (omega arith)

lookup-Models_example : value_at numbers two (lookup numbers two 5) ≡ some 50
lookup-Models_example = lookup-Models numbers with_both two 5 two-Models

delete-Models_example :
    (value_at numbers two (delete numbers two 5).0 ≡ some 50)
    × Models numbers (λ k. if k == 5 then none else with_both k) (delete numbers two 5).1
delete-Models_example = delete-Models numbers with_both two 5 two-Models

-- The cell of a deleted element is used again.
reused : (add numbers (delete numbers two 5).1 9).0 ≡ some 0
unfolding create add_value add take_cell grow link_in mkidx delete find_link unlink
reused = refl
