-- ===== src/Writer/Kept.antt =====
-- Where the rows of a batch go when it is flushed (src/writer.rs, `flush`).
use solana_realtime_indexer.Prelude.{
  ◌≡◌, String, List, Bool, true, false, ℤ, ◌⊎◌, inl, inr, All, All-map, All-of_In, In-map,
}
use solana_realtime_indexer.Identity.{key_eq}
use solana_realtime_indexer.Table.{contains}
use solana_realtime_indexer.Table.Laws.{
  contains-In, contains-append_left, contains-append_right, contains-insert_rows_old,
  contains-insert_rows,
}
use solana_realtime_indexer.Db.Schema.{PendingWrite, Db, event_key, letter_key, pending_key}
use solana_realtime_indexer.Db.Result.{Reply, served, dropped, silent}
use solana_realtime_indexer.Db.Write.{write_dead_letters, dead_letter}
use solana_realtime_indexer.Writer.Atomic.{applied}

-- The server carries out the statement that parks a failed batch.
abbrev pub parks : Reply → Bool
parks served = true
parks (dropped executed) = executed
parks (silent _) = false

module _ {V : Type 0} where
  -- The row's event is in the table `events`.
  abbrev pub IsStored : Db V → PendingWrite V → Type 0
  IsStored db r = contains event_key (pending_key r) db.events ≡ true

  -- The row is in the table `dead_letters`.
  abbrev pub IsParked : Db V → PendingWrite V → Type 0
  IsParked db r = contains letter_key (pending_key r) db.dead_letters ≡ true

  abbrev pub IsKept : Db V → PendingWrite V → Type 0
  IsKept db r = IsStored db r ⊎ IsParked db r

  pub applied-IsStored :
      (batch : List (PendingWrite V)) (slot : ℤ) (signature : String) (db : Db V)
      → All (IsStored (applied batch slot signature db)) batch
  unfolding applied
  applied-IsStored batch slot signature db = All-of_In _ batch (λ r m.
      contains-insert_rows event_key _ db.events r.event
        (In-map (λ (x : PendingWrite V). x.event) batch r m))

  pub applied-IsKept :
      (batch : List (PendingWrite V)) (slot : ℤ) (signature : String) (db : Db V)
      (r : PendingWrite V)
      → IsKept db r
      → IsKept (applied batch slot signature db) r
  unfolding applied
  applied-IsKept batch slot signature db r (inl h) =
      inl (contains-insert_rows_old event_key _ _ db.events h)
  applied-IsKept batch slot signature db r (inr h) = inr h

  letters-IsParked :
      (batch : List (PendingWrite V)) (error : String) (db : Db V)
      → All (IsParked (write_dead_letters batch error db)) batch
  unfolding write_dead_letters
  letters-IsParked batch error db = All-of_In _ batch λ r m.
      contains-append_right letter_key (pending_key r) db.dead_letters _
        (contains-In letter_key _ (dead_letter error r) (In-map (dead_letter error) batch r m))

  letters-IsKept :
      (batch : List (PendingWrite V)) (error : String) (db : Db V) (r : PendingWrite V)
      → IsKept db r
      → IsKept (write_dead_letters batch error db) r
  unfolding write_dead_letters
  letters-IsKept batch error db r (inl h) = inl h
  letters-IsKept batch error db r (inr h) =
      inr (contains-append_left letter_key (pending_key r) db.dead_letters _ h)

  -- What a flush of the batch has done with it, going from `db` to `db'`: every row is kept, and
  -- no row that was kept before is lost.
  pub record Keeps (batch : List (PendingWrite V)) (db db' : Db V) : Type 0 where
    pub rows : All (IsKept db') batch
    pub others : (r : PendingWrite V) → IsKept db r → IsKept db' r

  pub applied-Keeps :
      (batch : List (PendingWrite V)) (slot : ℤ) (signature : String) (db : Db V)
      → Keeps batch db (applied batch slot signature db)
  applied-Keeps batch slot signature db = record {
    rows = All-map _ _ batch (λ r h. inl h) (applied-IsStored batch slot signature db);
    others = applied-IsKept batch slot signature db;
  }

  pub letters-Keeps :
      (batch : List (PendingWrite V)) (error : String) (db tried : Db V)
      → ((r : PendingWrite V) → IsKept db r → IsKept tried r)
      → Keeps batch db (write_dead_letters batch error tried)
  letters-Keeps batch error db tried f = record {
    rows = All-map _ _ batch (λ r h. inr h) (letters-IsParked batch error tried);
    others = λ r k. letters-IsKept batch error tried r (f r k);
  }
