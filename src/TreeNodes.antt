-- ===== src/TreeNodes.antt =====
-- Comparing two records of one path: internal/model/treenode.go. Times are the nanoseconds since Go's
-- zero time; a value is its bytes. Decoding is encoding/json and not modelled.
pub mod Changes
pub mod Examples
use resticscope.Prelude.{
  ℕ, Bool, true, false, not, ◌&&◌, ◌||◌, Option, none, some, List, [], ◌∷◌, ◌++◌, length, Text,
  text_eq, text_lt, Assoc, lookup, insert, sort_stable, ◌==◌, if◌then◌else◌,
}

pub record ExtendedAttribute : Type 0 where
  pub name : Text
  pub value : Text

-- `content` is `none` for nil.
pub record TreeNode : Type 0 where
  pub name : Text
  pub type : Text
  pub mode : ℕ
  pub mod_time : ℕ
  pub access_time : ℕ
  pub change_time : ℕ
  pub uid : ℕ
  pub gid : ℕ
  pub user : Text
  pub group : Text
  pub inode : ℕ
  pub device_id : ℕ
  pub size : ℕ
  pub links : ℕ
  pub link_target : Text
  pub device : ℕ
  pub xattrs : List ExtendedAttribute
  pub generic_attrs : Assoc Text
  pub content : Option (List Text)
  pub subtree : Text
  pub error : Text

pub record NodeChanges : Type 0 where
  pub type : Bool
  pub mode : Bool
  pub owner : Bool
  pub group : Bool
  pub mod_time : Bool
  pub access_time : Bool
  pub change_time : Bool
  pub inode : Bool
  pub device_id : Bool
  pub size : Bool
  pub links : Bool
  pub link_target : Bool
  pub device : Bool
  pub xattrs : Bool
  pub generic_attrs : Bool
  pub content : Bool
  pub tree : Bool
  pub error : Bool

-- `byName`, later attributes replacing earlier ones.
unfoldable pub by_name_from : Assoc Text → List ExtendedAttribute → Assoc Text
by_name_from m [] = m
by_name_from m (x ∷ xs) = by_name_from (insert x.name x.value m) xs

unfoldable pub by_name : List ExtendedAttribute → Assoc Text
by_name xs = by_name_from [] xs

unfoldable pub has_value : Assoc Text → Text → Text → Bool
has_value m k v = elim (lookup k m) [ none ↦ false | some w ↦ text_eq v w ]

unfoldable pub all_xattrs_in : Assoc Text → List ExtendedAttribute → Bool
all_xattrs_in m [] = true
all_xattrs_in m (x ∷ xs) = has_value m x.name x.value && all_xattrs_in m xs

unfoldable pub same_xattrs : List ExtendedAttribute → List ExtendedAttribute → Bool
same_xattrs a b = length a == length b && all_xattrs_in (by_name a) b

unfoldable pub all_attrs_in : Assoc Text → Assoc Text → Bool
all_attrs_in m [] = true
all_attrs_in m ((k, v) ∷ a) = has_value m k v && all_attrs_in m a

unfoldable pub same_generic_attrs : Assoc Text → Assoc Text → Bool
same_generic_attrs a b = length a == length b && all_attrs_in b a

-- `slices.Equal`
unfoldable pub texts_eq : List Text → List Text → Bool
texts_eq [] [] = true
texts_eq [] (y ∷ ys) = false
texts_eq (x ∷ xs) [] = false
texts_eq (x ∷ xs) (y ∷ ys) = text_eq x y && texts_eq xs ys

unfoldable pub same_content : Option (List Text) → Option (List Text) → Bool
same_content none none = true
same_content none (some b) = false
same_content (some a) none = false
same_content (some a) (some b) = texts_eq a b

unfoldable pub compare_tree_nodes : TreeNode → TreeNode → NodeChanges
compare_tree_nodes a b = record {
  type = not (text_eq a.type b.type);
  mode = not (a.mode == b.mode);
  owner = not (a.uid == b.uid) || not (text_eq a.user b.user);
  group = not (a.gid == b.gid) || not (text_eq a.group b.group);
  mod_time = not (a.mod_time == b.mod_time);
  access_time = not (a.access_time == b.access_time);
  change_time = not (a.change_time == b.change_time);
  inode = not (a.inode == b.inode);
  device_id = not (a.device_id == b.device_id);
  size = not (a.size == b.size);
  links = not (a.links == b.links);
  link_target = not (text_eq a.link_target b.link_target);
  device = not (a.device == b.device);
  xattrs = not (same_xattrs a.xattrs b.xattrs);
  generic_attrs = not (same_generic_attrs a.generic_attrs b.generic_attrs);
  content = not (same_content a.content b.content);
  tree = not (text_eq a.subtree b.subtree);
  error = not (text_eq a.error b.error);
}

unfoldable pub own_fields_only : NodeChanges → NodeChanges
own_fields_only c = record c { content = false; tree = false }

unfoldable pub any_change : NodeChanges → Bool
any_change c =
    c.type || c.mode || c.owner || c.group || c.mod_time || c.access_time || c.change_time
    || c.inode || c.device_id || c.size || c.links || c.link_target || c.device || c.xattrs
    || c.generic_attrs || c.content || c.tree || c.error

unfoldable pub differing_xattrs : Assoc Text → List ExtendedAttribute → List Text
differing_xattrs m [] = []
differing_xattrs m (x ∷ xs) =
    let rest = differing_xattrs m xs in
    elim (lookup x.name m) [
      | none ↦ rest
      | some v ↦ if text_eq v x.value then rest else x.name ∷ rest
    ]

unfoldable pub xattr_values_differ : List ExtendedAttribute → List ExtendedAttribute → List Text
xattr_values_differ a b = sort_stable text_lt (differing_xattrs (by_name b) a)

unfoldable pub differing_attrs : Assoc Text → Assoc Text → List Text
differing_attrs b [] = []
differing_attrs b ((k, v) ∷ a) =
    let rest = differing_attrs b a in
    elim (lookup k b) [ none ↦ rest | some w ↦ if text_eq v w then rest else k ∷ rest ]

unfoldable pub generic_attr_values_differ : Assoc Text → Assoc Text → List Text
generic_attr_values_differ a b = sort_stable text_lt (differing_attrs b a)
