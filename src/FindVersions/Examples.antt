-- ===== src/FindVersions/Examples.antt =====
-- Two snapshots with the same version of a file.
use resticscope.Prelude.{none, some, List, [], ◌∷◌, codes}
use resticscope.FindVersions.{FindMatch, FindSnapshotResult, group_file_versions}
use resticscope.FindVersions.Occurrences.{sightings, all_sightings}
use resticscope.FindVersions.Versions.{AreDistinct, group_file_versions-sightings}
use mathlib.Core.List.{Perm}

abbrev hosts_file : FindMatch
hosts_file = record {
  path = codes "/etc/hosts";
  type = codes "file";
  size = 12;
  mod_time = 5;
  permissions = codes "-rw-r--r--";
  uid = some 0;
  gid = none;
}

abbrev results : List FindSnapshotResult
results =
    record { snapshot_id = codes "a"; matches = hosts_file ∷ [] }
    ∷ record { snapshot_id = codes "b"; matches = hosts_file ∷ [] }
    ∷ []

group_file_versions-sightings_example :
    Perm
      (sightings (group_file_versions results (codes "/etc/hosts") []))
      (all_sightings (codes "/etc/hosts") [] results)
    × AreDistinct (group_file_versions results (codes "/etc/hosts") [])
group_file_versions-sightings_example =
    group_file_versions-sightings results (codes "/etc/hosts") []
