-- ===== src/TreeNodes/Examples.antt =====
-- A file compared with itself.
use resticscope.Prelude.{◌≡◌, refl, false, none, [], ◌∷◌, codes, text_eq, lookup}
use resticscope.TreeNodes.{
  TreeNode, compare_tree_nodes, same_generic_attrs, all_attrs_in, has_value,
}

abbrev file : TreeNode
file = record {
  name = codes "a";
  type = codes "file";
  mode = 420;
  mod_time = 1;
  access_time = 1;
  change_time = 1;
  uid = 0;
  gid = 0;
  user = [];
  group = [];
  inode = 7;
  device_id = 1;
  size = 3;
  links = 1;
  link_target = [];
  device = 0;
  xattrs = [];
  generic_attrs = (codes "k", codes "1") ∷ [];
  content = none;
  subtree = [];
  error = [];
}

unchanged : (compare_tree_nodes file file).generic_attrs ≡ false
unfolding compare_tree_nodes same_generic_attrs all_attrs_in has_value lookup text_eq
unchanged = refl
