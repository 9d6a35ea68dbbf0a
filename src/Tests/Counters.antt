-- ===== src/Tests/Counters.antt =====
-- Buckets and metrics.
use logstore_node.Base.{◌+◌, ◌≡◌, refl, arith, true, some, [], ◌∷◌, pos, text_eq}
use logstore_node.Base.Collections.{get}
use logstore_node.Storage.Bucket.{Bucket}
use logstore_node.Metrics.{MessageMetrics, update_all, update_all-lost}
use logstore_node.Tests.Sample.{alice, stream}

abbrev bucket : Bucket
bucket = record {
  id = alice;
  stream_id = stream;
  partition = pos 0;
  size = 80;
  records = 1;
  date_create = 0;
  max_size = 100;
  max_record_count = 10;
  keep_alive_seconds = 60;
  ttl = 60000;
  stored = true;
}

abbrev metrics : MessageMetrics
metrics = record { seq_nums = (alice, 3) ∷ []; bytes = 9; count = 1; lost = 0 }

metrics-get : get metrics.seq_nums alice ≡ some 3
unfolding get
metrics-get = refl

-- 4 and 7 come, 5 and 6 are lost.
update_all-lost_example : (update_all metrics alice ((4, 1) ∷ (7, 1) ∷ [])).lost + 2 + 3 ≡ 0 + 7
update_all-lost_example =
    update_all-lost metrics alice 3 ((4, 1) ∷ (7, 1) ∷ []) metrics-get (omega arith)
      (omega arith, (omega arith, tt))
