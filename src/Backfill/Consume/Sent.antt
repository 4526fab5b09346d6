-- ===== src/Backfill/Consume/Sent.antt =====
-- What a backfill sends down the pipeline (src/datasources/backfill.rs, `consume`).
use solana_realtime_indexer.Prelude.{
  ℕ, ◌+◌, ◌≤◌, List, [], ◌∷◌, ◌++◌, ℤ, Bool, true, false, Option, none, some, ltb, length,
  length-append, ◌≡◌, refl, sym, ◌∙◌, ap, subst, arith, append-nil, append_assoc, Bool-cases, inl,
  inr, if◌then◌else◌,
}
use solana_realtime_indexer.Backfill.Consume.{
  BlockTransaction, Block, Update, update_of, send_next, unless_returned, send_block, send_listed,
  send_fetched, block_at, consume_slots,
}

-- What has been sent of the updates that are due: all of them, or as many as the channel took.
abbrev pub IsCut : {A : Type 0} → ℕ → List A → Bool × List A → Type 0
IsCut room due (true, sent) = sent ≡ due
IsCut {A = A} room due (false, sent) = (length sent ≡ room) × (rest : List A) × (sent ++ rest ≡ due)

abbrev pub prepend : {A : Type 0} → Option A → List A → List A
prepend none later = later
prepend (some a) later = a ∷ later

module _ {A : Type 0} where
  send_next-IsCut :
      (room : ℕ) (o : Option A) (rest : List A → Bool × List A) (later sent : List A)
      → length sent ≤ room
      → ((l : List A) → length l ≤ room → IsCut room (l ++ later) (rest l))
      → IsCut room (sent ++ prepend o later) (send_next room o rest sent)
  send_next-IsCut room none rest later sent h r = r sent h
  send_next-IsCut room (some a) rest later sent h r = elim (Bool-cases (ltb (length sent) room)) [
    | inl fits ↦
        let more = r (sent ++ a ∷ []) (ground (arith, length-append sent (a ∷ []))) in
        rw fits (
          subst (λ l. IsCut room l (rest (sent ++ a ∷ []))) (append_assoc sent (a ∷ []) later) more)
    | inr full ↦ rw full (ground arith, a ∷ later, refl)
  ]

  -- A run that has not stopped has sent what was due and has kept within the room.
  abbrev pub IsWithin : ℕ → Bool × List A → Type 0
  IsWithin room (true, sent) = length sent ≤ room
  IsWithin room (false, sent) = Unit

  send_next-IsWithin :
      (room : ℕ) (o : Option A) (rest : List A → Bool × List A) (sent : List A)
      → length sent ≤ room
      → ((l : List A) → length l ≤ room → IsWithin room (rest l))
      → IsWithin room (send_next room o rest sent)
  send_next-IsWithin room none rest sent h r = r sent h
  send_next-IsWithin room (some a) rest sent h r = elim (Bool-cases (ltb (length sent) room)) [
    | inl fits ↦ rw fits (r (sent ++ a ∷ []) (ground (arith, length-append sent (a ∷ []))))
    | inr full ↦ rw full tt
  ]

  unless_returned-IsCut :
      (room : ℕ) (x : Bool × List A) (rest : List A → Bool × List A) (due later : List A)
      → IsCut room due x
      → IsWithin room x
      → ((l : List A) → length l ≤ room → IsCut room (l ++ later) (rest l))
      → IsCut room (due ++ later) (unless_returned x rest)
  unless_returned-IsCut room (true, sent) rest due later c w r =
      subst (λ l. IsCut room (l ++ later) (rest sent)) c (r sent w)
  unless_returned-IsCut room (false, sent) rest due later c w r =
      let (len, more, e) = c in
      (len, more ++ later, sym (append_assoc sent more later) ∙ ap (λ l. l ++ later) e)

module _ {S D R M : Type 0} (convert : R → Option M) (first_signature : D → Option S) where
  -- The updates of a block's transactions that can be read, each with its place in the block.
  abbrev pub of_transactions : ℕ → Option ℤ → ℕ → List (BlockTransaction D R) → List (Update S D M)
  of_transactions slot block_time index [] = []
  of_transactions slot block_time index (tx ∷ txs) =
      prepend (update_of convert first_signature slot block_time index tx)
        (of_transactions slot block_time (index + 1) txs)

  abbrev pub of_listed : ℕ → Option ℤ → Option (List (BlockTransaction D R)) → List (Update S D M)
  of_listed slot block_time none = []
  of_listed slot block_time (some txs) = of_transactions slot block_time 0 txs

  abbrev pub of_block : ℕ → Option (Block D R) → List (Update S D M)
  of_block slot none = []
  of_block slot (some block) = of_listed slot block.block_time block.transactions

  -- The slots in their order, up to the one at which the run is cancelled.
  abbrev pub of_slots : (ℕ → ℕ → Option (Block D R)) → (ℕ → Bool) → List ℕ → List (Update S D M)
  of_slots node cancelled [] = []
  of_slots node cancelled (slot ∷ slots) =
      if cancelled slot
      then []
      else of_block slot (block_at convert first_signature node slot)
        ++ of_slots node cancelled slots

  send_block-IsCut :
      (room slot : ℕ) (block_time : Option ℤ) (index : ℕ) (txs : List (BlockTransaction D R))
      (sent : List (Update S D M))
      → length sent ≤ room
      → IsCut room
          (sent ++ of_transactions slot block_time index txs)
          (send_block convert first_signature room slot block_time index txs sent)
  unfolding send_block
  send_block-IsCut room slot t i [] sent h = sym (append-nil sent)
  send_block-IsCut room slot t i (tx ∷ txs) sent h =
      send_next-IsCut room (update_of convert first_signature slot t i tx) _
        (of_transactions slot t (i + 1) txs) sent h
        (λ l k. send_block-IsCut room slot t (i + 1) txs l k)

  send_block-IsWithin :
      (room slot : ℕ) (block_time : Option ℤ) (index : ℕ) (txs : List (BlockTransaction D R))
      (sent : List (Update S D M))
      → length sent ≤ room
      → IsWithin room (send_block convert first_signature room slot block_time index txs sent)
  unfolding send_block
  send_block-IsWithin room slot t i [] sent h = h
  send_block-IsWithin room slot t i (tx ∷ txs) sent h =
      send_next-IsWithin room (update_of convert first_signature slot t i tx) _ sent h
        (λ l k. send_block-IsWithin room slot t (i + 1) txs l k)

  send_listed-IsCut :
      (room slot : ℕ) (block_time : Option ℤ) (o : Option (List (BlockTransaction D R)))
      (sent : List (Update S D M))
      → length sent ≤ room
      → IsCut room
          (sent ++ of_listed slot block_time o)
          (send_listed convert first_signature room slot block_time o sent)
        × IsWithin room (send_listed convert first_signature room slot block_time o sent)
  send_listed-IsCut room slot t none sent h = (sym (append-nil sent), h)
  send_listed-IsCut room slot t (some txs) sent h =
      (send_block-IsCut room slot t 0 txs sent h, send_block-IsWithin room slot t 0 txs sent h)

  send_fetched-IsCut :
      (room slot : ℕ) (o : Option (Block D R)) (sent : List (Update S D M))
      → length sent ≤ room
      → IsCut room (sent ++ of_block slot o) (send_fetched convert first_signature room slot o sent)
        × IsWithin room (send_fetched convert first_signature room slot o sent)
  send_fetched-IsCut room slot none sent h = (sym (append-nil sent), h)
  send_fetched-IsCut room slot (some block) sent h =
      send_listed-IsCut room slot block.block_time block.transactions sent h

  -- A backfill sends the updates of its slots' blocks in order: slot by slot up to the one at
  -- which it is cancelled, in each block the transactions that can be read, with their place in
  -- it, and nothing for a block that could not be fetched. If the pipeline stops receiving, it
  -- has sent the first of them, as many as were received.
  pub consume_slots-IsCut :
      (node : ℕ → ℕ → Option (Block D R)) (cancelled : ℕ → Bool) (room : ℕ) (slots : List ℕ)
      (sent : List (Update S D M))
      → length sent ≤ room
      → IsCut room
          (sent ++ of_slots node cancelled slots)
          (consume_slots convert first_signature node cancelled room slots sent)
  unfolding consume_slots
  consume_slots-IsCut node cancelled room [] sent h = sym (append-nil sent)
  consume_slots-IsCut node cancelled room (slot ∷ slots) sent h =
      elim (Bool-cases (cancelled slot)) [
        | inl stop ↦ rw stop (sym (append-nil sent))
        | inr go ↦
            let block = block_at convert first_signature node slot in
            let (cut, within) = send_fetched-IsCut room slot block sent h in
            rw go (
              subst
                (λ l. IsCut room l (
                  unless_returned (send_fetched convert first_signature room slot block sent)
                    (consume_slots convert first_signature node cancelled room slots)))
                (append_assoc sent (of_block slot block) (of_slots node cancelled slots))
                (unless_returned-IsCut room _ _ (sent ++ of_block slot block)
                  (of_slots node cancelled slots) cut within
                  (λ l k. consume_slots-IsCut node cancelled room slots l k)))
      ]
