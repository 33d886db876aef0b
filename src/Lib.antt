-- ===== src/Lib.antt =====
-- Verification of Boost.Intrusive: the node algorithms under the containers.
--
-- The library's containers (list.hpp, slist.hpp, set.hpp and so on) never allocate: they link nodes
-- that the user's objects hold, and all work on links is done by the static functions of the
-- `*_algorithms` classes. These are modelled here, all paths being under include/boost/intrusive:
--
--   Machine       runs over a store of nodes. A pointer is a number, the null pointer is 0, and the
--                 store is a map from pointers for each field of a node. A run returns, throws (an
--                 exception of a user's callback, with the store it leaves), faults (the use of a
--                 null pointer) or is out of fuel.
--   CircularList  circular_list_algorithms.hpp over detail/list_node.hpp, the algorithms of
--                 list.hpp. Ring says what a circular list in the store is; each function of the
--                 header is a command of the same name.
--   SlistNodes    detail/common_slist_algorithms.hpp over detail/slist_node.hpp, with the children
--                 Circular (circular_slist_algorithms.hpp), Linear (linear_slist_algorithms.hpp) and
--                 Split (`stable_partition`), the algorithms of slist.hpp. Chain says what a list that
--                 ends in a null pointer is.
--   BsTree        bstree_algorithms.hpp and detail/bstree_algorithms_base.hpp over
--                 detail/tree_node.hpp, the base of all tree containers. Children: Navigate (steps
--                 through a tree), Search, Insert and Place (where to insert, and the insertion),
--                 Rotate, Erase, Replace, Vine (`rebalance`). Shape says which tree stands in the
--                 store: a subtree and its surroundings up to the header.
--   RbTree        rbtree_algorithms.hpp over detail/rbtree_node.hpp: insertion with rebalancing, and
--                 removal (Erase). Invariant says what a red-black tree is.
--   Treap         treap_algorithms.hpp: insertion, and removal by rotations, which a throwing comparison
--                 of priorities undoes. Merge says what a removal leaves, and Heap what the
--                 order of priorities is.
--   TreeContainer bstree.hpp over detail/size_holder.hpp, the container that the sets derive from, with
--                 constant-time size, over a record of the tree algorithms it calls, for trees
--                 whose `insert_unique_check` is that of BsTree. Interface says what it relies on, and
--                 Instances fills it with BsTree and with RbTree.
--
-- The tree algorithms call each other as in the source: those of RbTree use the insertion, removal
-- and rotations of BsTree, whose nodes have a further field for the colour. A class template's
-- overloads have names of their own (`unlink_range`, `transfer_one`). The comparison of a key with
-- nodes is a pair of tests on nodes, `less` for "the node is less than the key" and `greater` for
-- "the key is less than the node". A predicate of `stable_partition` returns none when it throws.
--
-- Bounds and fuel: a loop has one unit of fuel for each round, and its theorem says how much is
-- enough, which is a number of nodes or levels. Numbers are unbounded: a count of nodes in memory
-- does not reach the bound of `size_t`; only the `size_` of a container is a 64-bit number that
-- wraps. A comparison of keys is a function and does not throw; one of priorities returns none when
-- it throws.
--
-- Not modelled: the other containers and the iterators, which wrap these functions; the hooks and value
-- traits, which find a node in an object; the assertions, which have no effect in a release build;
-- the compact nodes, which keep a colour in a pointer's bits; AVL, splay and scapegoat trees
-- and the hash table; `clone`, `check` and the disposal of trees; the optional depth that some
-- checks compute for scapegoat trees.
pub mod Base
pub mod BsTree
pub mod CircularList
pub mod Machine
pub mod RbTree
pub mod SlistNodes
pub mod Treap
pub mod TreeContainer
