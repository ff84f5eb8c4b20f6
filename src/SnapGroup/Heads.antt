-- ===== src/SnapGroup/Heads.antt =====
-- The map `headByID` of `normalizedDetailMarks`: which head stands for an ID.
use resticscope.Prelude.{
  ◌≡◌, refl, Bool, true, ◌||◌, some, List, [], ◌∷◌, Text, Any, here, there, Bool-cases, inl, inr,
  ◌⊎◌, if◌then◌else◌, arith, Assoc, lookup, insert, lookup-insert, text_eq,
}
use resticscope.Snapshots.{Snapshot}
use resticscope.SnapGroup.{SnapNode, add_peers, head_by_id, has_id}

-- Whether a node's head or a peer has an ID.
abbrev pub node_has : Text → SnapNode → Bool
node_has id n = text_eq n.head.id id || has_id id n.peers

-- The last node with an ID, as later entries of the map replace earlier ones.
add_peers-lookup :
    (id : Text) (head : Snapshot) (peers : List Snapshot) (m : Assoc Snapshot)
    → lookup id (add_peers head peers m) ≡ (if has_id id peers then some head else lookup id m)
unfolding add_peers has_id
add_peers-lookup id head [] m = refl
add_peers-lookup id head (p ∷ peers) m =
    ground
      (arith, add_peers-lookup id head peers (insert p.id head m), lookup-insert p.id id head m)

-- A head that the map has for an ID is that of a node with it, among the nodes or in the map before.
pub head_by_id-found :
    (nodes : List SnapNode) (m : Assoc Snapshot) (id : Text) (h : Snapshot)
    → lookup id (head_by_id nodes m) ≡ some h
    → Any (λ n. (n.head ≡ h) × (node_has id n ≡ true)) nodes ⊎ (lookup id m ≡ some h)
unfolding head_by_id
head_by_id-found [] m id h e = inr e
head_by_id-found (n ∷ nodes) m id h e =
    let m' = add_peers n.head n.peers (insert n.head.id n.head m) in
    elim (head_by_id-found nodes m' id h e) [
      | inl a ↦ inl (there a)
      | inr k ↦
          at_node (add_peers-lookup id n.head n.peers (insert n.head.id n.head m))
            (lookup-insert n.head.id id n.head m) k
    ]
  where
    at_node :
        (lookup id (add_peers n.head n.peers (insert n.head.id n.head m))
          ≡ (if has_id id n.peers then some n.head else lookup id (insert n.head.id n.head m)))
        → (lookup id (insert n.head.id n.head m)
            ≡ (if text_eq n.head.id id then some n.head else lookup id m))
        → lookup id (add_peers n.head n.peers (insert n.head.id n.head m)) ≡ some h
        → Any (λ n. (n.head ≡ h) × (node_has id n ≡ true)) (n ∷ nodes) ⊎ (lookup id m ≡ some h)
    at_node x y k = elim (Bool-cases (node_has id n)) [
      | inl e ↦ inl (here (ground arith, e))
      | inr e ↦ inr (ground arith)
    ]

-- A display's node with an ID gives the map an entry for it.
pub head_by_id-has :
    (nodes : List SnapNode) (m : Assoc Snapshot) (id : Text)
    → Any (λ n. node_has id n ≡ true) nodes ⊎ ((h : Snapshot) × (lookup id m ≡ some h))
    → (h : Snapshot) × (lookup id (head_by_id nodes m) ≡ some h)
unfolding head_by_id
head_by_id-has [] m id a = elim a [ inl b ↦ elim b [ ] | inr k ↦ k ]
head_by_id-has (n ∷ nodes) m id a = head_by_id-has nodes _ id (moved a)
  where
    entry :
        (node_has id n ≡ true) ⊎ ((h : Snapshot) × (lookup id m ≡ some h))
        → (h : Snapshot) × (lookup id (add_peers n.head n.peers (insert n.head.id n.head m))
            ≡ some h)
    entry (inl e) = (
      n.head,
      ground (
        arith,
        add_peers-lookup id n.head n.peers (insert n.head.id n.head m),
        lookup-insert n.head.id id n.head m,
      ),
    )
    entry (inr (h, k)) = elim (Bool-cases (node_has id n)) [
      | inl e ↦ (
        n.head,
        ground (
          arith,
          add_peers-lookup id n.head n.peers (insert n.head.id n.head m),
          lookup-insert n.head.id id n.head m,
        ),
      )
      | inr e ↦ (
        h,
        ground (
          arith,
          add_peers-lookup id n.head n.peers (insert n.head.id n.head m),
          lookup-insert n.head.id id n.head m,
        ),
      )
    ]

    moved :
        Any (λ n. node_has id n ≡ true) (n ∷ nodes) ⊎ ((h : Snapshot) × (lookup id m ≡ some h))
        → Any (λ n. node_has id n ≡ true) nodes
          ⊎ ((h : Snapshot) × (lookup id (add_peers n.head n.peers (insert n.head.id n.head m))
                ≡ some h))
    moved (inl (here e)) = inr (entry (inl e))
    moved (inl (there a)) = inl a
    moved (inr k) = inr (entry (inr k))
