-- ===== src/SnapGroup/Marks.antt =====
-- Marks after the display changes: `normalizedDetailMarks`.
use resticscope.Prelude.{
  ◌≡◌, refl, sym, subst, Bool, true, false, ◌||◌, Option, none, some, List, [], ◌∷◌, Text, All, Any,
  here, there, Any-impl, All-impl, Option-cases, Bool-cases, inl, inr, ◌⊎◌, if◌then◌else◌, arith,
  Assoc, lookup, text_eq_iff,
}
use resticscope.Snapshots.{Snapshot}
use resticscope.SnapGroup.{
  SnapNode, SnapDisplay, head_by_id, is_seen, mapped_marks, normalized_detail_marks, has_id,
}
use resticscope.SnapGroup.Heads.{node_has, head_by_id-found, head_by_id-has}

-- No two snapshots of a list have the same ID.
abbrev pub IsDistinct : List Snapshot → Type 0
IsDistinct [] = Unit
IsDistinct (s ∷ snaps) = (has_id s.id snaps ≡ false) × IsDistinct snaps

-- What is put out has none of the IDs seen, and no ID twice.
mapped_marks-new :
    (heads : Assoc Snapshot) (marks : List Snapshot) (seen : List Text) (id : Text)
    → is_seen id seen ≡ true
    → has_id id (mapped_marks heads seen marks) ≡ false
unfolding mapped_marks has_id is_seen
mapped_marks-new heads [] seen id h = refl
mapped_marks-new heads (mark ∷ marks) seen id h = elim (Option-cases (lookup mark.id heads)) [
  | inl e ↦ rw (e, mapped_marks) (mapped_marks-new heads marks seen id h)
  | inr (s, e) ↦ elim (Bool-cases (is_seen s.id seen)) [
    | inl k ↦ rw (e, k, mapped_marks) (mapped_marks-new heads marks seen id h)
    | inr k ↦
        rw (e, k, mapped_marks)
          (ground (arith, text_eq_iff s.id id, mapped_marks-new heads marks (s.id ∷ seen) id))
  ]
]

mapped_marks-IsDistinct :
    (heads : Assoc Snapshot) (marks : List Snapshot) (seen : List Text)
    → IsDistinct (mapped_marks heads seen marks)
unfolding mapped_marks
mapped_marks-IsDistinct heads [] seen = tt
mapped_marks-IsDistinct heads (mark ∷ marks) seen = elim (Option-cases (lookup mark.id heads)) [
  | inl e ↦ rw (e, mapped_marks) (mapped_marks-IsDistinct heads marks seen)
  | inr (s, e) ↦ elim (Bool-cases (is_seen s.id seen)) [
    | inl k ↦ rw (e, k, mapped_marks) (mapped_marks-IsDistinct heads marks seen)
    | inr k ↦
        rw (e, k, mapped_marks)
          (
            mapped_marks-new heads marks (s.id ∷ seen) s.id
                (unfold is_seen in ground (arith, text_eq_iff s.id s.id)),
            mapped_marks-IsDistinct heads marks (s.id ∷ seen),
          )
  ]
]

mapped_marks-from :
    (heads : Assoc Snapshot) (marks : List Snapshot) (seen : List Text)
    → All (λ s. (id : Text) × (lookup id heads ≡ some s)) (mapped_marks heads seen marks)
unfolding mapped_marks
mapped_marks-from heads [] seen = tt
mapped_marks-from heads (mark ∷ marks) seen = elim (Option-cases (lookup mark.id heads)) [
  | inl e ↦ rw (e, mapped_marks) (mapped_marks-from heads marks seen)
  | inr (s, e) ↦ elim (Bool-cases (is_seen s.id seen)) [
    | inl k ↦ rw (e, k, mapped_marks) (mapped_marks-from heads marks seen)
    | inr k ↦ rw (e, k, mapped_marks) ((mark.id, e), mapped_marks-from heads marks (s.id ∷ seen))
  ]
]

-- A head is represented by what was seen or by what is put out.
abbrev KeptAs : List Text → List Snapshot → Option Snapshot → Type 0
KeptAs seen out none = Unit
KeptAs seen out (some h) = is_seen h.id seen || has_id h.id out ≡ true

abbrev Kept : Assoc Snapshot → List Text → List Snapshot → Snapshot → Type 0
Kept heads seen out mark = KeptAs seen out (lookup mark.id heads)

KeptAs-out :
    (seen : List Text) (out : List Snapshot) (s : Snapshot) (o : Option Snapshot)
    → KeptAs (s.id ∷ seen) out o
    → KeptAs seen (s ∷ out) o
unfolding is_seen has_id
KeptAs-out seen out s none h = tt
KeptAs-out seen out s (some g) h = ground arith

-- What is put out from a mark on.
mapped_marks-cons :
    (heads : Assoc Snapshot) (mark : Snapshot) (marks : List Snapshot) (seen : List Text)
    → mapped_marks heads seen (mark ∷ marks) ≡ elim (lookup mark.id heads) [
      | none ↦ mapped_marks heads seen marks
      | some s ↦
          if is_seen s.id seen
          then mapped_marks heads seen marks
          else s ∷ mapped_marks heads (s.id ∷ seen) marks
    ]
unfolding mapped_marks
mapped_marks-cons heads mark marks seen = refl

-- One mark, with what is known of those behind it.
Kept-cons :
    (heads : Assoc Snapshot) (mark : Snapshot) (marks : List Snapshot) (seen : List Text)
    → ((later : List Text) → All (Kept heads later (mapped_marks heads later marks)) marks)
    → All (Kept heads seen (mapped_marks heads seen (mark ∷ marks))) (mark ∷ marks)
Kept-cons heads mark marks seen ih =
    subst (λ out. All (Kept heads seen out) (mark ∷ marks))
      (sym (mapped_marks-cons heads mark marks seen)) (by_head (lookup mark.id heads) refl)
  where
    from_new :
        (s : Snapshot)
        → lookup mark.id heads ≡ some s
        → All (Kept heads seen (s ∷ mapped_marks heads (s.id ∷ seen) marks)) (mark ∷ marks)
    from_new s e = (
      rw e (unfold has_id in ground (arith, text_eq_iff s.id s.id)),
      All-impl _ _
          (λ m h. KeptAs-out seen (mapped_marks heads (s.id ∷ seen) marks) s (lookup m.id heads) h)
          marks (ih (s.id ∷ seen)),
    )

    by_seen :
        (b : Bool) (s : Snapshot)
        → is_seen s.id seen ≡ b
        → lookup mark.id heads ≡ some s
        → All
            (Kept heads seen (
              if b
              then mapped_marks heads seen marks
              else s ∷ mapped_marks heads (s.id ∷ seen) marks))
            (mark ∷ marks)
    by_seen true s k e = (rw (e, k) refl, ih seen)
    by_seen false s k e = from_new s e

    by_head :
        (o : Option Snapshot)
        → lookup mark.id heads ≡ o
        → All
            (Kept heads seen (elim o as (λ x. List Snapshot) [
              | none ↦ mapped_marks heads seen marks
              | some s ↦
                  if is_seen s.id seen
                  then mapped_marks heads seen marks
                  else s ∷ mapped_marks heads (s.id ∷ seen) marks
            ]))
            (mark ∷ marks)
    by_head none e = (rw e tt, ih seen)
    by_head (some s) e = by_seen (is_seen s.id seen) s refl e

mapped_marks-Kept :
    (heads : Assoc Snapshot) (marks : List Snapshot) (seen : List Text)
    → All (Kept heads seen (mapped_marks heads seen marks)) marks
mapped_marks-Kept heads [] seen = tt
mapped_marks-Kept heads (mark ∷ marks) seen =
    Kept-cons heads mark marks seen (λ later. mapped_marks-Kept heads marks later)

-- Whether some node has an ID.
abbrev pub any_node : Text → List SnapNode → Bool
any_node id [] = false
any_node id (n ∷ nodes) = node_has id n || any_node id nodes

any_node-Any :
    (id : Text) (nodes : List SnapNode)
    → any_node id nodes ≡ true
    → Any (λ n. node_has id n ≡ true) nodes
any_node-Any id [] h = cc
any_node-Any id (n ∷ nodes) h = elim (Bool-cases (node_has id n)) [
  | inl e ↦ here e
  | inr e ↦ there (any_node-Any id nodes (ground arith))
]

-- A mark whose ID no node has, or which is represented by the head of a node with its ID.
abbrev pub IsRepresented : List SnapNode → List Snapshot → Snapshot → Type 0
IsRepresented nodes out mark =
    (any_node mark.id nodes ≡ false)
    ⊎ Any (λ n. (node_has mark.id n ≡ true) × (has_id n.head.id out ≡ true)) nodes

Kept-IsRepresented :
    (nodes : List SnapNode) (out : List Snapshot) (mark : Snapshot)
    → Kept (head_by_id nodes []) [] out mark
    → IsRepresented nodes out mark
unfolding is_seen
Kept-IsRepresented nodes out mark h = elim (Bool-cases (any_node mark.id nodes)) [
  | inr e ↦ inl e
  | inl e ↦
      let (g, k) = head_by_id-has nodes [] mark.id (inl (any_node-Any mark.id nodes e)) in
      inr (
        Any-impl (λ n r. (r.1, subst (λ s. has_id s.id out ≡ true) (sym r.0) (rw k at h)))
          (in_nodes (head_by_id-found nodes [] mark.id g k)))
]
  where
    in_nodes :
        {g : Snapshot}
        → Any (λ n. (n.head ≡ g) × (node_has mark.id n ≡ true)) nodes ⊎ (lookup mark.id [] ≡ some g)
        → Any (λ n. (n.head ≡ g) × (node_has mark.id n ≡ true)) nodes
    in_nodes (inl a) = a
    in_nodes (inr e) = unfold lookup in cc

mapped-IsHead :
    (nodes : List SnapNode) (s : Snapshot)
    → (id : Text) × (lookup id (head_by_id nodes []) ≡ some s)
    → Any (λ n. n.head ≡ s) nodes
unfolding lookup
mapped-IsHead nodes s (id, e) = elim (head_by_id-found nodes [] id s e) [
  | inl a ↦ Any-impl (λ n r. r.0) a
  | inr k ↦ cc
]

-- After the display changes, the marks are heads of its nodes, no two with the same ID, and each mark
-- that a node still has, as its head or as a peer, is represented by the head of such a node.
pub normalized_detail_marks-IsRepresented :
    (marks : List Snapshot) (d : SnapDisplay)
    → IsDistinct (normalized_detail_marks marks d)
      × All (λ s. Any (λ n. n.head ≡ s) d.nodes) (normalized_detail_marks marks d)
      × All (IsRepresented d.nodes (normalized_detail_marks marks d)) marks
unfolding normalized_detail_marks
normalized_detail_marks-IsRepresented marks d =
    let heads = head_by_id d.nodes [] in
    (
      mapped_marks-IsDistinct heads marks [],
      All-impl _ _ (mapped-IsHead d.nodes) (mapped_marks heads [] marks)
          (mapped_marks-from heads marks []),
      All-impl _ _ (Kept-IsRepresented d.nodes (mapped_marks heads [] marks)) marks
          (mapped_marks-Kept heads marks []),
    )
