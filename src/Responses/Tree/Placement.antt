-- ===== src/Responses/Tree/Placement.antt =====
-- Where `buildThreadTree` puts each response.
use reasonbridge.Prelude.{
  ℕ, ◌+◌, ◌≡◌, refl, sym, ap, ◌∙◌, Bool, true, false, not, ◌&&◌, ◌||◌, Option, none, some, List, [],
  ◌∷◌, ◌++◌, arith, map, filter, any, ◌==◌, Bool-cases, Option-cases, inl, inr, if◌then◌else◌,
}
use reasonbridge.Database.{modify_first}
use reasonbridge.Responses.{Response}
use reasonbridge.Responses.Tree.{
  ThreadedResponse, ThreadTree, node_key, find_node, set_node, new_node, nodes_of, push_reply,
  set_depth, attach_to, attach_all, build_thread_tree,
}

abbrev pub is_some {ℓ} : {A : Type ℓ} → Option A → Bool
is_some none = false
is_some (some a) = true

abbrev pub has_node : ℕ → List ThreadedResponse → Bool
has_node i ns = is_some (find_node i ns)

abbrev pub replies_in : Option ThreadedResponse → List ℕ
replies_in none = []
replies_in (some n) = n.replies

abbrev pub replies_of : ℕ → ThreadTree → List ℕ
replies_of i t = replies_in (find_node i t.nodes)

abbrev pub names : ℕ → Option ℕ → Bool
names p none = false
names p (some q) = q == p

abbrev pub is_reply_to : ℕ → Response → Bool
is_reply_to p r = names p r.parent_id

-- A response without a parent among the known ones.
abbrev pub is_root : (ℕ → Bool) → Option ℕ → Bool
is_root known none = true
is_root known (some p) = not (known p)

abbrev pub is_id_in : List Response → ℕ → Bool
is_id_in rs p = any (λ r. r.id == p) rs

set_node-has :
    (n : ThreadedResponse) (ns : List ThreadedResponse) (p : ℕ)
    → has_node p (set_node n ns) ≡ (node_key n == p || has_node p ns)
set_node-has n [] p = ground arith
set_node-has n (x ∷ xs) p = ground (arith, set_node-has n xs p)

-- No replies yet.
set_node-replies :
    (r : Response) (ns : List ThreadedResponse) (p : ℕ)
    → replies_in (find_node p ns) ≡ []
    → replies_in (find_node p (set_node (new_node r) ns)) ≡ []
set_node-replies r [] p h = ground arith
set_node-replies r (x ∷ xs) p h = ground (arith, set_node-replies r xs p)

nodes_of-has :
    (rs : List Response) (ns : List ThreadedResponse) (p : ℕ)
    → has_node p (nodes_of rs ns) ≡ (is_id_in rs p || has_node p ns)
nodes_of-has [] ns p = refl
nodes_of-has (r ∷ rs) ns p =
    nodes_of-has rs (set_node (new_node r) ns) p ∙ ground (arith, set_node-has (new_node r) ns p)

nodes_of-replies :
    (rs : List Response) (ns : List ThreadedResponse) (p : ℕ)
    → replies_in (find_node p ns) ≡ []
    → replies_in (find_node p (nodes_of rs ns)) ≡ []
nodes_of-replies [] ns p h = h
nodes_of-replies (r ∷ rs) ns p h =
    nodes_of-replies rs (set_node (new_node r) ns) p (set_node-replies r ns p h)

append_nil : (xs : List ℕ) → xs ++ [] ≡ xs
append_nil [] = refl
append_nil (x ∷ xs) = ap (λ (ys : List ℕ). x ∷ ys) (append_nil xs)

module _ (p i : ℕ) where
  has-push :
      (ns : List ThreadedResponse) (q : ℕ)
      → has_node q (modify_first (λ n. node_key n == p) (push_reply i) ns) ≡ has_node q ns
  has-push [] q = refl
  has-push (x ∷ xs) q = ground (arith, has-push xs q)

  has-depth :
      (d : ℕ) (ns : List ThreadedResponse) (q : ℕ)
      → has_node q (modify_first (λ n. node_key n == i) (set_depth d) ns) ≡ has_node q ns
  has-depth d [] q = refl
  has-depth d (x ∷ xs) q = ground (arith, has-depth d xs q)

  replies-depth :
      (d : ℕ) (ns : List ThreadedResponse) (q : ℕ)
      → replies_in (find_node q (modify_first (λ n. node_key n == i) (set_depth d) ns))
        ≡ replies_in (find_node q ns)
  replies-depth d [] q = refl
  replies-depth d (x ∷ xs) q = ground (arith, replies-depth d xs q)

  replies-push :
      (ns : List ThreadedResponse) (q : ℕ)
      → replies_in (find_node q (modify_first (λ n. node_key n == p) (push_reply i) ns))
        ≡ replies_in (find_node q ns) ++ (if p == q && has_node q ns then i ∷ [] else [])
  replies-push [] q = ground arith
  replies-push (x ∷ xs) q = elim (Bool-cases (node_key x == p)) [
    | inl t ↦ elim (Bool-cases (node_key x == q)) [
      | inl u ↦ let same : (p == q) ≡ true = ground arith in rw (t, u, same) refl
      | inr u ↦
          let differ : (p == q) ≡ false = ground arith in
          rw (t, u, differ) (sym (append_nil (replies_in (find_node q xs))))
    ]
    | inr t ↦ elim (Bool-cases (node_key x == q)) [
      | inl u ↦
          let differ : (p == q) ≡ false = ground arith in
          rw (t, u, differ) (sym (append_nil x.replies))
      | inr u ↦ rw (t, u) (replies-push xs q)
    ]
  ]

-- What one round of the second loop does to the replies of a node, the nodes and the roots.
module _ (i : ℕ) (t : ThreadTree) where
  attach_to-has : (o : Option ℕ) (q : ℕ) → has_node q (attach_to i o t).nodes ≡ has_node q t.nodes
  attach_to-has none q = refl
  attach_to-has (some p) q = elim (Option-cases (find_node p t.nodes)) [
    | inl e ↦ rw (e, attach_to) refl
    | inr (parent, e) ↦
        rw (e, attach_to)
          (has-depth p i (parent.depth + 1)
              (modify_first (λ n. node_key n == p) (push_reply i) t.nodes) q
            ∙ has-push p i t.nodes q)
  ]

  attach_to-replies :
      (o : Option ℕ) (q : ℕ)
      → replies_of q (attach_to i o t)
        ≡ replies_of q t ++ (if names q o && has_node q t.nodes then i ∷ [] else [])
  attach_to-replies none q = sym (append_nil (replies_of q t))
  attach_to-replies (some p) q = elim (Option-cases (find_node p t.nodes)) [
    | inl e ↦
        let absent : ((p == q) && has_node q t.nodes) ≡ false = elim (Bool-cases (p == q)) [
          | inl u ↦ let same : p ≡ q = ground arith in rw u (rw (sym same) (rw e refl))
          | inr u ↦ rw u refl
        ] in
        rw (e, absent, attach_to) (sym (append_nil (replies_of q t)))
    | inr (parent, e) ↦
        rw (e, attach_to)
          (replies-depth p i (parent.depth + 1)
              (modify_first (λ n. node_key n == p) (push_reply i) t.nodes) q
            ∙ replies-push p i t.nodes q)
  ]

  attach_to-roots :
      (o : Option ℕ)
      → (attach_to i o t).roots
        ≡ t.roots ++ (if is_root (λ q. has_node q t.nodes) o then i ∷ [] else [])
  attach_to-roots none = refl
  attach_to-roots (some p) = elim (Option-cases (find_node p t.nodes)) [
    | inl e ↦ rw (e, attach_to) refl
    | inr (parent, e) ↦ rw (e, attach_to) (sym (append_nil t.roots))
  ]

append_assoc : (xs ys zs : List ℕ) → (xs ++ ys) ++ zs ≡ xs ++ (ys ++ zs)
append_assoc [] ys zs = refl
append_assoc (x ∷ xs) ys zs = ap (λ (l : List ℕ). x ∷ l) (append_assoc xs ys zs)

abbrev pub ids : List Response → List ℕ
ids rs = map (λ r. r.id) rs

module _ (known : ℕ → Bool) where
  ids-filter :
      (p : Response → Bool) (r : Response) (rs : List Response)
      → (if p r then r.id ∷ [] else []) ++ ids (filter p rs) ≡ ids (filter p (r ∷ rs))
  ids-filter p r rs = ground arith

  -- The ids before, the one that a round may add, and those of the rounds after it.
  ids-round :
      (p : Response → Bool) (b : Bool) (before : List ℕ) (r : Response) (rs : List Response)
      → b ≡ p r
      → (before ++ (if b then r.id ∷ [] else [])) ++ ids (filter p rs)
        ≡ before ++ ids (filter p (r ∷ rs))
  ids-round p b before r rs h =
      append_assoc before (if b then r.id ∷ [] else []) (ids (filter p rs))
      ∙ ap (λ (l : List ℕ). before ++ l) (rw h (ids-filter p r rs))

  is_root-same :
      {f : ℕ → Bool} → ((q : ℕ) → f q ≡ known q) → (o : Option ℕ) → is_root f o ≡ is_root known o
  is_root-same h none = refl
  is_root-same h (some p) = rw (h p) refl

  attach_all-roots :
      (rs : List Response) (t : ThreadTree)
      → ((q : ℕ) → has_node q t.nodes ≡ known q)
      → (attach_all rs t).roots ≡ t.roots ++ ids (filter (λ r. is_root known r.parent_id) rs)
  attach_all-roots [] t h = sym (append_nil t.roots)
  attach_all-roots (r ∷ rs) t h =
      attach_all-roots rs (attach_to r.id r.parent_id t)
        (λ q. attach_to-has r.id t r.parent_id q ∙ h q)
      ∙ rw (attach_to-roots r.id t r.parent_id) (
          ids-round (λ x. is_root known x.parent_id) (is_root (λ q. has_node q t.nodes) r.parent_id)
            t.roots r rs (is_root-same h r.parent_id))

  attach_all-replies :
      (rs : List Response) (t : ThreadTree) (q : ℕ)
      → has_node q t.nodes ≡ known q
      → replies_of q (attach_all rs t)
        ≡ replies_of q t ++ ids (filter (λ r. is_reply_to q r && known q) rs)
  attach_all-replies [] t q h = sym (append_nil (replies_of q t))
  attach_all-replies (r ∷ rs) t q h =
      attach_all-replies rs (attach_to r.id r.parent_id t) q
        (attach_to-has r.id t r.parent_id q ∙ h)
      ∙ rw (attach_to-replies r.id t r.parent_id q) (
          ids-round (λ x. is_reply_to q x && known q) (is_reply_to q r && has_node q t.nodes)
            (replies_of q t) r rs (rw h refl))

-- The list returned holds, in the order given, the responses without a parent among the given ones, and
-- the replies of each node are, in the order given, the responses that name it as their parent.
pub build_thread_tree-placement :
    (rs : List Response) (q : ℕ)
    → ((build_thread_tree rs).roots ≡ ids (filter (λ r. is_root (is_id_in rs) r.parent_id) rs))
      × (replies_of q (build_thread_tree rs)
          ≡ ids (filter (λ r. is_reply_to q r && is_id_in rs q) rs))
unfolding build_thread_tree
build_thread_tree-placement rs q =
    let start : ThreadTree = record { nodes = nodes_of rs []; roots = [] } in
    let known : (p : ℕ) → has_node p (nodes_of rs []) ≡ is_id_in rs p =
      λ p. nodes_of-has rs [] p ∙ ground arith in
    let no_replies : replies_of q start ≡ [] = nodes_of-replies rs [] q refl in
    (
      attach_all-roots (is_id_in rs) rs start known,
      attach_all-replies (is_id_in rs) rs start q (known q) ∙ rw no_replies refl,
    )
