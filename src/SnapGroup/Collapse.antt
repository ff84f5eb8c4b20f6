-- ===== src/SnapGroup/Collapse.antt =====
-- What the collapse of runs and the grouping keep: every snapshot stands in one node.
use resticscope.Prelude.{
  ◌+◌, ◌≡◌, refl, sym, ◌∙◌, ap, true, List, [], ◌∷◌, ◌++◌, map, length, append_assoc, All,
  All-append, length-append, Bool-cases, inl, inr, arith,
}
use resticscope.Snapshots.{Snapshot}
use resticscope.SnapGroup.{SnapNode, single, collapsible, collapse_from, collapse_tree_runs}

-- The snapshots of nodes, each head before its peers.
abbrev pub members : List SnapNode → List Snapshot
members [] = []
members (n ∷ nodes) = n.head ∷ n.peers ++ members nodes

-- A node counts its peers, which have the head's tree and source.
pub record IsRun (n : SnapNode) : Type 0 where
  pub counted : n.count ≡ length n.peers
  pub alike : All (λ p. collapsible n.head p ≡ true) n.peers

grown-IsRun :
    (n : SnapNode) (s : Snapshot)
    → IsRun n
    → collapsible n.head s ≡ true
    → IsRun (record n { count = n.count + 1; peers = n.peers ++ s ∷ [] })
grown-IsRun n s h e = record {
  counted = omega (arith, h.counted, length-append n.peers (s ∷ []));
  alike = All-append (λ p. collapsible n.head p ≡ true) n.peers (s ∷ []) h.alike (e, tt);
}

single-IsRun : (s : Snapshot) → IsRun (single s)
single-IsRun s = record { counted = refl; alike = tt }

collapse_from-members :
    (snaps : List Snapshot) (cur : SnapNode)
    → members (collapse_from cur snaps) ≡ cur.head ∷ cur.peers ++ snaps
unfolding collapse_from
collapse_from-members [] cur = refl
collapse_from-members (s ∷ snaps) cur = elim (Bool-cases (collapsible cur.head s)) [
  | inl e ↦
      rw (e, collapse_from)
        (collapse_from-members snaps
            (record cur { count = cur.count + 1; peers = cur.peers ++ s ∷ [] })
          ∙ ap (λ ps. cur.head ∷ ps) (append_assoc cur.peers (s ∷ []) snaps))
  | inr e ↦
      rw (e, collapse_from)
        (ap (λ ps. cur.head ∷ cur.peers ++ ps) (collapse_from-members snaps (single s)))
]

collapse_from-IsRun :
    (snaps : List Snapshot) (cur : SnapNode) → IsRun cur → All IsRun (collapse_from cur snaps)
unfolding collapse_from
collapse_from-IsRun [] cur h = (h, tt)
collapse_from-IsRun (s ∷ snaps) cur h = elim (Bool-cases (collapsible cur.head s)) [
  | inl e ↦ rw (e, collapse_from) (collapse_from-IsRun snaps _ (grown-IsRun cur s h e))
  | inr e ↦ rw (e, collapse_from) (h, collapse_from-IsRun snaps (single s) (single-IsRun s))
]

-- Collapsing keeps every snapshot in its place: the nodes' members, one after the other, are the
-- input. Each node counts its peers, which all have the head's non-empty tree and its source.
pub collapse_tree_runs-members :
    (snaps : List Snapshot)
    → (members (collapse_tree_runs snaps) ≡ snaps) × All IsRun (collapse_tree_runs snaps)
unfolding collapse_tree_runs
collapse_tree_runs-members [] = (refl, tt)
collapse_tree_runs-members (s ∷ snaps) =
    (collapse_from-members snaps (single s), collapse_from-IsRun snaps (single s) (single-IsRun s))

pub members-append : (ns ms : List SnapNode) → members (ns ++ ms) ≡ members ns ++ members ms
members-append [] ms = refl
members-append (n ∷ ns) ms =
    ap (λ ps. n.head ∷ n.peers ++ ps) (members-append ns ms)
    ∙ ap (λ ps. n.head ∷ ps) (sym (append_assoc n.peers (members ns) (members ms)))

pub members-single : (snaps : List Snapshot) → members (map single snaps) ≡ snaps
members-single [] = refl
members-single (s ∷ snaps) = ap (λ ss. s ∷ ss) (members-single snaps)
