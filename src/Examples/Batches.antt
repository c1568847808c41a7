-- ===== src/Examples/Batches.antt =====
-- A live batch that is never started, and the ends of one.
use whooshd.Base.{ℕ, ◌≡◌, refl, true, false, none, some, [], ◌∷◌, Dict, lookup, same, inr}
use whooshd.Examples.{desk, first, second, slots}
use whooshd.Queue.{
  RequestQueue, wait_round, is_granted, listed, find, is_expired, new as empty_queue,
}
use whooshd.Queue.Batches.{Future, pending}
use whooshd.Runtime.{new as fresh}
use whooshd.Service.LiveBatch.{BatchSettings, start_live_batch, BatchResponse, end_live_batch}
use whooshd.Service.LiveBatch.Outcomes.{wait_round-no_live_batch, Settles, end_live_batch-Settles}

-- The first request has been granted a slot, the second one, of the same model, is queued.
abbrev one_granted : RequestQueue
one_granted = record empty_queue { entries = second ∷ []; granted = "a" ∷ [] }

abbrev eager : BatchSettings
eager = record {
  execution_enabled = true;
  analysis_enabled = true;
  min_size = 2;
  max_size = 4;
  is_experimental = true;
}

abbrev no_futures : Dict (Future ℕ)
no_futures = []

wait_round-no_live_batch_example :
    start_live_batch eager fresh
      (wait_round desk slots 3 first false one_granted []).queue
      no_futures
      "a"
    ≡ (no_futures, none)
unfolding wait_round is_granted listed find same is_expired
wait_round-no_live_batch_example =
    wait_round-no_live_batch desk slots 3 first false one_granted [] eager fresh no_futures (tt, tt)
      (inr (refl, refl)) refl

abbrev both_claimed : Dict (Future (BatchResponse ℕ))
both_claimed = ("a", pending) ∷ ("b", pending) ∷ []

end_live_batch-Settles_example :
    Settles "a" "b" (first ∷ second ∷ []) (some (7 ∷ 8 ∷ [])) (
      end_live_batch 5 "a" (first ∷ second ∷ []) (some (7 ∷ 8 ∷ [])) fresh empty_queue both_claimed)
unfolding listed same lookup
end_live_batch-Settles_example =
    end_live_batch-Settles 5 "a" "b" (first ∷ second ∷ []) fresh empty_queue both_claimed
      (some (7 ∷ 8 ∷ [])) refl refl
