-- ===== src/BrowseSession/Examples.antt =====
-- A session that is closed while an operation waits for it, and one index run.
use resticscope.Prelude.{◌≡◌, refl, true, false, some, List, [], ◌∷◌}
use resticscope.BrowseSession.{
  Pc, waiting, locked, closing, close_waiting, finished, new_browse_session, lock, mark, refuse,
  step, Reach, here, next,
}
use resticscope.BrowseSession.Safety.{IsSafe, tally, Reach-IsSafe}
use resticscope.BrowseSession.Ended.{IsEnded, index_snapshot-IsEnded}
use resticscope.BrowseSession.Index.{
  Answers, index_snapshot, begin_op, is_indexed, begin_index, stream_tree, rollback, release,
  fill_index, end_index, roll_back, release_op, trim_memory,
}

abbrev threads : List Pc
threads = waiting ∷ closing ∷ []

refused :
    Reach threads (record new_browse_session { closed = true }) (finished ∷ close_waiting ∷ [])
refused =
    next (next (next here (step [] (closing ∷ []) (lock refl))) (step (locked ∷ []) [] mark))
      (step [] (close_waiting ∷ []) (refuse refl))

Reach-IsSafe_example :
    IsSafe (record new_browse_session { closed = true }) (tally (finished ∷ close_waiting ∷ []))
Reach-IsSafe_example = Reach-IsSafe threads (refl, (refl, tt)) refused

abbrev complete : Answers
complete = record {
  enabled = true;
  known = true;
  begins = true;
  indexed = some false;
  resolves = true;
  tx_begins = true;
  stream = some true;
  added = 300000;
  commits = true;
}

index_snapshot-IsEnded_example : IsEnded complete (index_snapshot complete)
index_snapshot-IsEnded_example = index_snapshot-IsEnded complete

-- A stream that is not complete: the transaction is rolled back.
rolled_back :
    (index_snapshot (record complete { stream = some false })).calls
    ≡ begin_op ∷ is_indexed ∷ begin_index ∷ stream_tree ∷ rollback ∷ release ∷ []
unfolding index_snapshot fill_index end_index roll_back release_op trim_memory
rolled_back = refl
