-- ===== src/Responses/Tree.antt =====
-- `buildThreadTree`. The objects that the map and the lists of replies share are the nodes of a store,
-- and a list of replies, like the list returned, holds the ids of its nodes.
pub mod Placement
use reasonbridge.Prelude.{
  ℕ, ◌+◌, ◌≡◌, refl, sym, ap, ◌∙◌, Bool, true, false, not, ◌&&◌, ◌||◌, Option, none, some, List, [],
  ◌∷◌, ◌++◌, arith, map, filter, find, any, ◌==◌, Bool-cases, Option-cases, inl, inr, if◌then◌else◌,
}
use reasonbridge.Database.{modify_first, find-true}
use reasonbridge.Responses.{Response}

-- `ThreadedResponse`
pub record ThreadedResponse : Type 0 where
  pub response : Response
  pub replies : List ℕ
  pub depth : ℕ

abbrev pub node_key : ThreadedResponse → ℕ
node_key n = n.response.id

abbrev pub find_node : ℕ → List ThreadedResponse → Option ThreadedResponse
find_node i ns = find (λ n. node_key n == i) ns

-- `responseMap.set`
abbrev pub set_node : ThreadedResponse → List ThreadedResponse → List ThreadedResponse
set_node n [] = n ∷ []
set_node n (x ∷ xs) = if node_key x == node_key n then n ∷ xs else x ∷ set_node n xs

abbrev pub new_node : Response → ThreadedResponse
new_node r = record { response = r; replies = []; depth = 0 }

-- The first loop.
abbrev pub nodes_of : List Response → List ThreadedResponse → List ThreadedResponse
nodes_of [] ns = ns
nodes_of (r ∷ rs) ns = nodes_of rs (set_node (new_node r) ns)

pub record ThreadTree : Type 0 where
  pub nodes : List ThreadedResponse
  pub roots : List ℕ

abbrev pub push_reply : ℕ → ThreadedResponse → ThreadedResponse
push_reply i n = record n { replies = n.replies ++ i ∷ [] }

abbrev pub set_depth : ℕ → ThreadedResponse → ThreadedResponse
set_depth depth n = record n { depth = depth }

abbrev pub add_root : ℕ → ThreadTree → ThreadTree
add_root i t = record t { roots = t.roots ++ i ∷ [] }

abbrev pub add_reply : ℕ → ℕ → ThreadedResponse → ThreadTree → ThreadTree
add_reply i p parent t = record t {
  nodes =
      modify_first (λ n. node_key n == i) (set_depth (parent.depth + 1))
        (modify_first (λ n. node_key n == p) (push_reply i) t.nodes);
}

abbrev pub attach_to : ℕ → Option ℕ → ThreadTree → ThreadTree
attach_to i none t = add_root i t
attach_to i (some p) t = elim (find_node p t.nodes) [
  | none ↦ add_root i t
  | some parent ↦ add_reply i p parent t
]

-- The second loop.
abbrev pub attach_all : List Response → ThreadTree → ThreadTree
attach_all [] t = t
attach_all (r ∷ rs) t = attach_all rs (attach_to r.id r.parent_id t)

unfoldable pub build_thread_tree : List Response → ThreadTree
build_thread_tree rs = attach_all rs (record { nodes = nodes_of rs []; roots = [] })
