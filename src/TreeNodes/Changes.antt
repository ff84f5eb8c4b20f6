-- ===== src/TreeNodes/Changes.antt =====
-- Unchanged attributes have no differing values.
use resticscope.Prelude.{◌≡◌, refl, true, false, arith, [], ◌∷◌, Text, Assoc, sort_stable}
use resticscope.TreeNodes.{
  TreeNode, has_value, all_attrs_in, same_generic_attrs, differing_attrs,
  generic_attr_values_differ, compare_tree_nodes,
}

all_attrs_in-differing : (b a : Assoc Text) → all_attrs_in b a ≡ true → differing_attrs b a ≡ []
unfolding all_attrs_in differing_attrs has_value
all_attrs_in-differing b [] h = refl
all_attrs_in-differing b ((k, v) ∷ a) h = ground (arith, all_attrs_in-differing b a)

-- Where the comparison of two records reports no change, no generic attribute is listed as having
-- different values in them.
pub compare_tree_nodes-differing :
    (a b : TreeNode)
    → (compare_tree_nodes a b).generic_attrs ≡ false
    → generic_attr_values_differ a.generic_attrs b.generic_attrs ≡ []
unfolding compare_tree_nodes same_generic_attrs generic_attr_values_differ
compare_tree_nodes-differing a b h =
    rw (all_attrs_in-differing b.generic_attrs a.generic_attrs (ground arith))
      (unfold sort_stable in refl)
