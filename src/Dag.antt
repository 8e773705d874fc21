-- ===== src/Dag.antt =====
-- The graph of state nodes: pkg/state/dag.go.
pub mod Seen
pub mod Pruning
use opencoin.Prelude.{
  ℕ, zero, suc, ◌+◌, List, [], ◌∷◌, ◌++◌, length, Bool, true, false, not, ◌&&◌, ◌||◌, ◌==◌,
  if◌then◌else◌, Option, none, some, is_some, Result, ok, err, stuck, ◌>>=◌, ◌>>◌, fail_if,
}
use opencoin.Prelude.Map.{Map, Bytes_key, lookup, insert, erase}
use opencoin.Types.{Hash, StateNode}
use opencoin.Crypto.{bytes_equal}

pub record Dag : Type 0 where
  pub nodes : Map Hash StateNode
  pub children : Map Hash (List Hash)
  pub tips : List Hash

unfoldable pub new_dag : Dag
new_dag = record { nodes = []; children = []; tips = [] }

-- `d.children[h]`, nil for a missing key.
abbrev pub children_of : Hash → Map Hash (List Hash) → List Hash
children_of h m = elim (lookup h m) [ none ↦ [] | some hs ↦ hs ]

-- Membership in a set of hashes, a Go map to empty structs.
unfoldable pub contains : Hash → List Hash → Bool
contains h [] = false
contains h (x ∷ xs) = bytes_equal x h || contains h xs

-- The loop that enters a node under its parents.
unfoldable pub add_child : Hash → List Hash → Map Hash (List Hash) → Map Hash (List Hash)
add_child h [] m = m
add_child h (p ∷ parents) m = add_child h parents (insert p (children_of p m ++ h ∷ []) m)

-- The tips that are no parents.
unfoldable pub other_tips : List Hash → List Hash → List Hash
unfolding contains
other_tips parents [] = []
other_tips parents (tip ∷ tips) =
    let rest = other_tips parents tips in if contains tip parents then rest else tip ∷ rest

unfoldable pub update_tips : Hash → List Hash → List Hash → List Hash
unfolding other_tips
update_tips new_node parents tips = other_tips parents tips ++ new_node ∷ []

unfoldable pub add_node : Option StateNode → Dag → Result Dag
unfolding add_child update_tips
add_node none d = err "state node is nil"
add_node (some node) d = do
  fail_if (is_some (lookup node.root_hash d.nodes)) "state node already exists"
  ok (record {
    nodes = insert node.root_hash node d.nodes;
    children = add_child node.root_hash node.parents d.children;
    tips = update_tips node.root_hash node.parents d.tips;
  })

unfoldable pub get_node : Dag → Hash → Option StateNode
get_node d h = lookup h d.nodes

-- `walk`: the children that are still to be looked at, those of the last node first. A child that
-- was not seen is marked and walked from.
unfoldable pub walk : ℕ → Map Hash (List Hash) → List Hash → List Hash → Result (List Hash)
unfolding contains
walk fuel children [] seen = ok seen
walk zero children (c ∷ cs) seen = stuck
walk (suc fuel) children (c ∷ cs) seen =
    walk fuel children (if contains c seen then cs else children_of c children ++ cs)
      (if contains c seen then seen else c ∷ seen)

-- How many children are recorded: the fuel of `walk`.
unfoldable pub count_children : Map Hash (List Hash) → ℕ
count_children [] = 0
count_children ((h, hs) ∷ m) = length hs + count_children m

-- The loop that deletes the nodes that were not seen.
unfoldable pub keep_seen : {V : Type 0} → (Hash → Bool) → Map Hash V → Map Hash V
keep_seen kept [] = []
keep_seen kept ((h, v) ∷ m) = let rest = keep_seen kept m in if kept h then (h, v) ∷ rest else rest

-- The nodes with parents and with no children.
unfoldable pub recompute_tips : Map Hash (List Hash) → Map Hash StateNode → List Hash
recompute_tips children [] = []
recompute_tips children ((h, node) ∷ nodes) =
    let rest = recompute_tips children nodes in
    if length node.parents == 0 || not (length (children_of h children) == 0)
    then rest
    else h ∷ rest

-- Only the children of nodes are deleted.
unfoldable pub prune_non_final : Hash → Dag → Result Dag
unfolding walk count_children keep_seen recompute_tips
prune_non_final final_root d = do
  seen ←
      walk (count_children d.children) d.children (children_of final_root d.children)
        (final_root ∷ [])
  let nodes = keep_seen (λ h. contains h seen) d.nodes
  let children = keep_seen (λ h. contains h seen || not (is_some (lookup h d.nodes))) d.children
  ok (record { nodes = nodes; children = children; tips = recompute_tips children nodes })
