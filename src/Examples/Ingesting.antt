-- ===== src/Examples/Ingesting.antt =====
-- The theorems on ingestion: two accounts that see one channel, and an album of two photos.
use tdaudiibncba.Common.{pos, ◌≡◌, ◌⊎◌, true, false, none, List, [], ◌∷◌, contains}
use tdaudiibncba.Ingest.Album.{Key, key_eq, MemberDisposition, add}
use tdaudiibncba.Ingest.Emission.{
  Op, adding, flushing, run, Emits, run-Emits, fresh_aggregator, fresh_aggregator-IsValid,
}
use tdaudiibncba.Ingest.Members.{Accounted, add-Accounted}

abbrev album_calls : List Op
album_calls =
    adding "watcher" (pos 5) (pos 77) (pos 2) 0 0
    ∷ adding "watcher" (pos 5) (pos 77) (pos 1) 3 3
    ∷ flushing (λ n. 9)
    ∷ []

run-Emits_example :
    Emits
      (fresh_aggregator 5)
      (run (fresh_aggregator 5) album_calls).0
      (run (fresh_aggregator 5) album_calls).1
run-Emits_example = run-Emits (fresh_aggregator 5) album_calls (fresh_aggregator-IsValid 5)

add-Accounted_example :
    let k : Key = ("watcher", pos 5, pos 77) in
    let agg = fresh_aggregator 5 in
    let r = add agg "watcher" (pos 5) (pos 77) (pos 2) 0 0 in
    ((contains agg.closed_keys k ≡ true) × (r ≡ ((none, MemberDisposition.late), agg)))
    ⊎ ((contains agg.closed_keys k ≡ false) × Accounted agg k (pos 2) 0 r)
add-Accounted_example = add-Accounted (fresh_aggregator 5) "watcher" (pos 5) (pos 77) (pos 2) 0 0
