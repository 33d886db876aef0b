-- ===== src/CircularList/Examples.antt =====
-- Tests of the circular list algorithms: the nodes 1, 2, 3 and 4 form a ring, 5 and 6 another
-- one, and 7 is in no list.
use intrusive.Base.{
  ◌+◌, ◌≤◌, ◌≡◌, refl, arith, [], ◌∷◌, map, count, Bool, true, false, ◌==◌, Option, none, some,
  if◌then◌else◌,
}
use intrusive.Machine.{Ptr, ok, Returns, Throws}
use intrusive.CircularList.{
  Links, link_before, link_after, unlink, unlink_range, transfer, transfer_one, distance,
  move_backwards, move_forward, swap_nodes, stable_partition, partition_info,
}
use intrusive.CircularList.Ring.{Ring, SameOutside}
use intrusive.CircularList.Link.{link_before-Ring, link_after-Ring}
use intrusive.CircularList.Unlink.{unlink-Ring, unlink_range-Ring}
use intrusive.CircularList.Transfer.{transfer-Ring, transfer-Ring_same, transfer_one-Ring}
use intrusive.CircularList.Walk.{count-length, distance-length}
use intrusive.CircularList.Reverse.{reverse-Ring}
use intrusive.CircularList.Move.{move_backwards-Ring, move_forward-Ring}
use intrusive.CircularList.Swap.{swap_nodes-Ring, swap_nodes-Ring_inited, exchanged}
use intrusive.CircularList.Partition.{stable_partition-Ring, stable_partition-Ring-Throws}

abbrev forth : Ptr → Ptr
forth a =
    if a == 1
    then 2
    else if a == 2
    then 3
    else if a == 3
    then 4
    else if a == 4
    then 1
    else if a == 5
    then 6
    else if a == 6
    then 5
    else 0

abbrev back : Ptr → Ptr
back a =
    if a == 1
    then 4
    else if a == 2
    then 1
    else if a == 3
    then 2
    else if a == 4
    then 3
    else if a == 5
    then 6
    else if a == 6
    then 5
    else 0

abbrev store : Links
store = record { next = forth; prev = back }

four-Ring : Ring store 1 (2 ∷ 3 ∷ 4 ∷ [])
four-Ring = record {
  seg = (
    record { forth = refl; back = refl },
    (record { forth = refl; back = refl }, (record { forth = refl; back = refl }, tt)),
  );
  closed = record { forth = refl; back = refl };
  distinct = λ a. ground arith;
  nonnull = refl;
}

pair-Ring : Ring store 5 (6 ∷ [])
pair-Ring = record {
  seg = (record { forth = refl; back = refl }, tt);
  closed = record { forth = refl; back = refl };
  distinct = λ a. ground arith;
  nonnull = refl;
}

apart : (a : Ptr) → count a (1 ∷ 2 ∷ 3 ∷ 4 ∷ []) + count a (5 ∷ 6 ∷ []) ≤ 1
apart a = ground arith

link_before_example :
    Returns
      (λ _ g. Ring g 1 (2 ∷ 3 ∷ 4 ∷ 7 ∷ []) × SameOutside (7 ∷ 1 ∷ 2 ∷ 3 ∷ 4 ∷ []) store g)
      (link_before 1 7 store)
link_before_example = link_before-Ring 7 four-Ring (ground arith) refl

link_after_example :
    Returns
      (λ _ g. Ring g 1 (7 ∷ 2 ∷ 3 ∷ 4 ∷ []) × SameOutside (7 ∷ 1 ∷ 2 ∷ 3 ∷ 4 ∷ []) store g)
      (link_after 1 7 store)
link_after_example = link_after-Ring (2 ∷ 3 ∷ 4 ∷ []) 7 four-Ring (ground arith) refl

unlink_example :
    Returns
      (λ next g. (next ≡ 2) × Ring g 2 (3 ∷ 4 ∷ []) × SameOutside (2 ∷ 3 ∷ 4 ∷ []) store g)
      (unlink 1 store)
unlink_example = unlink-Ring four-Ring

unlink_range_example :
    Returns (λ _ g. Ring g 1 (2 ∷ []) × SameOutside (1 ∷ 2 ∷ []) store g) (unlink_range 3 1 store)
unlink_range_example = unlink_range-Ring (2 ∷ []) 3 (4 ∷ []) four-Ring

transfer_example :
    Returns
      (λ _ g.
        Ring g 5 (6 ∷ 3 ∷ 4 ∷ [])
        × Ring g 1 (2 ∷ [])
        × SameOutside (5 ∷ 6 ∷ 1 ∷ 2 ∷ 3 ∷ 4 ∷ []) store g)
      (transfer 5 3 1 store)
transfer_example =
    transfer-Ring (6 ∷ []) (2 ∷ []) 3 (4 ∷ []) pair-Ring four-Ring (λ a. ground arith)

transfer_same_example :
    Returns
      (λ _ g. Ring g 1 (4 ∷ 2 ∷ 3 ∷ []) × SameOutside (1 ∷ 2 ∷ 3 ∷ 4 ∷ []) store g)
      (transfer 1 2 4 store)
transfer_same_example = transfer-Ring_same [] 2 (3 ∷ []) 4 [] four-Ring

transfer_one_example :
    Returns
      (λ _ g.
        Ring g 5 (6 ∷ 1 ∷ [])
        × Ring g 2 (3 ∷ 4 ∷ [])
        × SameOutside (5 ∷ 6 ∷ 1 ∷ 2 ∷ 3 ∷ 4 ∷ []) store g)
      (transfer_one 5 1 store)
transfer_one_example =
    transfer_one-Ring (6 ∷ []) (3 ∷ 4 ∷ []) pair-Ring four-Ring (λ a. ground arith)

count_example : intrusive.CircularList.count 4 1 store ≡ ok 4 store
count_example = count-length 4 four-Ring (ground arith)

distance_example : distance 4 1 4 store ≡ ok 3 store
distance_example = distance-length (2 ∷ 3 ∷ []) 4 [] 4 four-Ring (ground arith)

reverse_example :
    Returns
      (λ _ g. Ring g 1 (4 ∷ 3 ∷ 2 ∷ []) × SameOutside (1 ∷ 2 ∷ 3 ∷ 4 ∷ []) store g)
      (intrusive.CircularList.reverse 4 1 store)
reverse_example = reverse-Ring (2 ∷ 3 ∷ 4 ∷ []) 4 four-Ring (ground arith)

move_backwards_example : Returns (λ _ g. Ring g 1 (4 ∷ 2 ∷ 3 ∷ [])) (move_backwards 1 2 store)
move_backwards_example = move_backwards-Ring 2 (3 ∷ []) 4 [] four-Ring

move_forward_example : Returns (λ _ g. Ring g 1 (3 ∷ 4 ∷ 2 ∷ [])) (move_forward 1 2 store)
move_forward_example = move_forward-Ring 2 [] 3 (4 ∷ []) four-Ring

from_three : Ring store 3 (4 ∷ 1 ∷ 2 ∷ [])
from_three = record {
  seg = (
    record { forth = refl; back = refl },
    (record { forth = refl; back = refl }, (record { forth = refl; back = refl }, tt)),
  );
  closed = record { forth = refl; back = refl };
  distinct = λ a. ground arith;
  nonnull = refl;
}

swap_nodes_example :
    Returns
      (λ _ g. Ring g (exchanged 3 5 1) (map (exchanged 3 5) (2 ∷ 3 ∷ 4 ∷ [])))
      (swap_nodes 3 5 store)
swap_nodes_example = swap_nodes-Ring (ground arith) from_three pair-Ring four-Ring

swap_nodes_inited_example :
    Returns (λ _ g. Ring g 7 (6 ∷ []) × (g.next 5 ≡ 0) × (g.prev 5 ≡ 0)) (swap_nodes 7 5 store)
swap_nodes_inited_example = swap_nodes-Ring_inited (ground arith) refl pair-Ring refl

abbrev odd : Ptr → Option Bool
odd a = if a == 3 then some true else some false

stable_partition_example :
    Returns
      (λ info g. (info ≡ partition_info 1 2 2) × Ring g 1 (3 ∷ 2 ∷ 4 ∷ []))
      (stable_partition odd 4 2 1 store)
stable_partition_example =
    stable_partition-Ring odd 4 [] (2 ∷ 3 ∷ 4 ∷ []) four-Ring refl (ground arith)

-- The test passes for 3 and throws for 4.
abbrev throwing : Ptr → Option Bool
throwing a = if a == 3 then some true else if a == 4 then none else some false

stable_partition-Throws_example :
    Throws (λ g. Ring g 1 (3 ∷ 2 ∷ 4 ∷ [])) (stable_partition throwing 4 2 1 store)
stable_partition-Throws_example =
    stable_partition-Ring-Throws throwing 4 [] (2 ∷ 3 ∷ 4 ∷ []) four-Ring (λ e. ground arith)
      (ground arith)
