-- ===== src/Pipeline/Placed.antt =====
-- Where a row is while `run_pipeline` runs, and where each task takes it (src/pipeline.rs, src/writer.rs).
use solana_realtime_indexer.Prelude.{
  List, [], ◌∷◌, ◌++◌, Bool, true, false, some, ◌≡◌, ◌⊎◌, All-In, sym, inl, inr, ap, ◌∙◌, arith,
  subst, length, In, In-append_left, In-append_right, In-append,
}
use solana_realtime_indexer.Db.Schema.{PendingWrite}
use solana_realtime_indexer.Writer.Flush.{State}
use solana_realtime_indexer.Writer.Kept.{IsKept}
use solana_realtime_indexer.Writer.Loop.{Arm}
use solana_realtime_indexer.Writer.Lossless.{rows_of, IsHeld, IsFlushed, Selected}
use solana_realtime_indexer.Pipeline.{Running}

module _ {V : Type 0} where
  -- The row is still to be sent, or in the channel, or with the writer.
  abbrev pub IsPlaced : Running V → PendingWrite V → Type 0
  IsPlaced s r = In r s.to_send ⊎ In r s.queue ⊎ IsHeld s.writer r

  -- What a row that is still to be sent, or was, has become.
  pub sent-IsPlaced :
      (r x : PendingWrite V) (rs queue : List (PendingWrite V)) (w : State V)
      → In x (r ∷ rs) ⊎ In x queue ⊎ IsHeld w x
      → In x rs ⊎ In x (queue ++ r ∷ []) ⊎ IsHeld w x
  sent-IsPlaced r x rs queue w (inl (inl e)) = inr (inl (In-append_right x queue (r ∷ []) (inl e)))
  sent-IsPlaced r x rs queue w (inl (inr m)) = inl m
  sent-IsPlaced r x rs queue w (inr (inl m)) = inr (inl (In-append_left x queue (r ∷ []) m))
  sent-IsPlaced r x rs queue w (inr (inr h)) = inr (inr h)

  -- After a turn of the writer task that took `taken` from the channel.
  pub turned-IsPlaced :
      (arm : Arm V) (x : PendingWrite V) (to_send queue : List (PendingWrite V)) (w w' : State V)
      (stop : Bool)
      → Selected w arm (some (w', stop))
      → In x to_send ⊎ In x (rows_of arm ++ queue) ⊎ IsHeld w x
      → In x to_send ⊎ In x queue ⊎ IsHeld w' x
  turned-IsPlaced arm x to_send queue w w' stop sel (inl m) = inl m
  turned-IsPlaced arm x to_send queue w w' stop sel (inr (inl m)) =
      elim (In-append x (rows_of arm) queue m) [
        | inl here ↦ inr (inr (All-In (IsHeld w') (rows_of arm) sel.2 here))
        | inr there ↦ inr (inl there)
      ]
  turned-IsPlaced arm x to_send queue w w' stop sel (inr (inr h)) = inr (inr (sel.3 x h))

  pub kept-IsHeld :
      (w w' : State V) (x : PendingWrite V)
      → ((r : PendingWrite V) → IsKept w.db r → IsKept w'.db r)
      → w.batch ≡ w'.batch
      → IsHeld w x
      → IsHeld w' x
  kept-IsHeld w w' x keeps same (inl k) = inl (keeps x k)
  kept-IsHeld w w' x keeps same (inr m) = inr (subst (In x) same m)

  pub kept-IsPlaced :
      (x : PendingWrite V) (to_send queue : List (PendingWrite V)) (w w' : State V)
      → ((r : PendingWrite V) → IsKept w.db r → IsKept w'.db r)
      → w.batch ≡ w'.batch
      → In x to_send ⊎ In x queue ⊎ IsHeld w x
      → In x to_send ⊎ In x queue ⊎ IsHeld w' x
  kept-IsPlaced x to_send queue w w' keeps same (inl m) = inl m
  kept-IsPlaced x to_send queue w w' keeps same (inr (inl m)) = inr (inl m)
  kept-IsPlaced x to_send queue w w' keeps same (inr (inr h)) =
      inr (inr (kept-IsHeld w w' x keeps same h))

  pub IsFlushed-same :
      (stopped : Bool) (w w' : State V)
      → w.batch ≡ w'.batch
      → IsFlushed stopped w
      → IsFlushed stopped w'
  IsFlushed-same true w w' same f = sym same ∙ f
  IsFlushed-same false w w' same f = omega (arith, ap length same)
