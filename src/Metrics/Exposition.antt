-- ===== src/Metrics/Exposition.antt =====
-- `render` of src/metrics.rs: the text for Prometheus. `show` is the text of a `u64`, `seconds` that
-- of a number of microseconds divided by 1_000_000.0.
pub mod Counted
use Prim.Native.String.{◌++◌ as ◌<>◌}
use solana_realtime_indexer.Prelude.{ℕ, ◌+◌, ◌%◌, String, List, [], ◌∷◌, u64_mod}
use solana_realtime_indexer.Metrics.{Metrics, commit_lag_slots}
use solana_realtime_indexer.Metrics.Histogram.{Histogram, bucket_edges_us}

-- `running += ..` over the buckets, the overflow bucket last.
unfoldable pub running_counts : ℕ → List ℕ → List ℕ
running_counts running [] = []
running_counts running (b ∷ bs) =
    let running' = (running + b) % u64_mod in running' ∷ running_counts running' bs

abbrev pub last_or : ℕ → List ℕ → ℕ
last_or d [] = d
last_or d (x ∷ xs) = last_or x xs

-- A name, a help text and a counter.
pub record Counter : Type 0 where
  pub name : String
  pub help : String
  pub value : ℕ

abbrev pub counters : Metrics → List Counter
counters m =
    record {
      name = "indexer_events_decoded_total";
      help = "events decoded from the stream";
      value = m.events_decoded;
    }
    ∷ record {
      name = "indexer_skipped_failed_total";
      help = "transactions skipped because they failed on chain";
      value = m.skipped_failed;
    }
    ∷ record {
      name = "indexer_pool_cache_hits_total";
      help = "pool lookups answered from memory";
      value = m.pool_cache_hits;
    }
    ∷ record {
      name = "indexer_pool_cache_misses_total";
      help = "pool lookups not in memory";
      value = m.pool_cache_misses;
    }
    ∷ record {
      name = "indexer_pool_lookups_total";
      help = "pool lookups sent to RPC";
      value = m.pool_lookups;
    }
    ∷ record {
      name = "indexer_pool_lookup_errors_total";
      help = "pool lookups RPC could not answer";
      value = m.pool_lookup_errors;
    }
    ∷ record {
      name = "indexer_lookups_dropped_total";
      help = "pool lookups discarded because the queue was full";
      value = m.lookups_dropped;
    }
    ∷ record {
      name = "indexer_replay_skipped_total";
      help = "fixture lines replay could not use";
      value = m.replay_skipped;
    }
    ∷ record {
      name = "indexer_db_write_errors_total";
      help = "batches the database refused";
      value = m.db_write_errors;
    }
    ∷ record {
      name = "indexer_dead_letters_total";
      help = "rows parked after a failed batch";
      value = m.dead_letters;
    }
    ∷ record {
      name = "indexer_gaps_detected_total";
      help = "stream gaps recorded";
      value = m.gap_detected;
    }
    ∷ record {
      name = "indexer_trades_written_total";
      help = "events that produced a trade row";
      value = m.trades_written;
    }
    ∷ record {
      name = "indexer_unoriented_total";
      help = "events stored with no trade row, pool could not be oriented";
      value = m.unoriented;
    }
    ∷ record {
      name = "indexer_oriented_normal_total";
      help = "trades from pools where the quote side is wrapped SOL";
      value = m.oriented_normal;
    }
    ∷ record {
      name = "indexer_oriented_inverted_total";
      help = "trades from pools where the base side is wrapped SOL";
      value = m.oriented_inverted;
    }
    ∷ []

module _ (show : ℕ → String) (seconds : ℕ → String) where
  unfoldable pub counter_texts : List Counter → String
  counter_texts [] = ""
  counter_texts (c ∷ cs) =
      ("# HELP "
        <> c.name
        <> " "
        <> c.help
        <> "\n# TYPE "
        <> c.name
        <> " counter\n"
        <> c.name
        <> " "
        <> show c.value
        <> "\n")
      <> counter_texts cs

  abbrev pub lag_text : ℕ → String
  lag_text lag =
      "# HELP indexer_commit_lag_slots slots between the newest slot seen and the newest committed\n"
      <> "# TYPE indexer_commit_lag_slots gauge\n"
      <> "indexer_commit_lag_slots "
      <> show lag
      <> "\n"

  -- The lines of the buckets: one for each edge, and that of the overflow bucket.
  unfoldable pub bucket_texts : String → List ℕ → List ℕ → String
  bucket_texts name edges [] = ""
  bucket_texts name [] (count ∷ counts) = name <> "_bucket{le=\"+Inf\"} " <> show count <> "\n"
  bucket_texts name (edge ∷ edges) (count ∷ counts) =
      (name <> "_bucket{le=\"" <> seconds edge <> "\"} " <> show count <> "\n")
      <> bucket_texts name edges counts

  -- What `histogram` writes, given the counts of the buckets, the sum and the number in all.
  abbrev pub histogram_text : String → String → List ℕ → ℕ → ℕ → String
  histogram_text name help counts sum_us count =
      "# HELP "
      <> name
      <> " "
      <> help
      <> "\n# TYPE "
      <> name
      <> " histogram\n"
      <> bucket_texts name bucket_edges_us counts
      <> name
      <> "_sum "
      <> seconds sum_us
      <> "\n"
      <> name
      <> "_count "
      <> show count
      <> "\n"

  unfoldable pub histogram : String → String → Histogram → String
  unfolding running_counts bucket_texts
  histogram name help hist =
      let counts = running_counts 0 hist.buckets in
      histogram_text name help counts hist.sum_us (last_or 0 counts)

  unfoldable pub render : Metrics → String
  unfolding counter_texts histogram commit_lag_slots
  render m =
      counter_texts (counters m)
      <> lag_text (commit_lag_slots m)
      <> histogram "indexer_decode_seconds"
          "time from an instruction arriving to it being counted as decoded" m.decode_time
      <> histogram "indexer_flush_seconds" "time to commit one batch" m.flush_time
      <> histogram "indexer_receive_to_committed_seconds"
          "time from a row reaching the writer to its batch committing" m.receive_to_committed
