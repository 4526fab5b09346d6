-- ===== src/Identity.antt =====
-- The identity of an event (src/identity.rs), and the primary key of its rows.
use solana_realtime_indexer.Prelude.{
  ℕ, String, List, ℤ, ◌≡◌, ◌↔◌, Bool, true, ◌&&◌, Eq, ◌=?◌, =?_iff, arith, string_eq, list_eq,
  nat_eq, int_eq,
}

pub record EventId : Type 0 where
  pub signature : String
  pub absolute_path : List ℕ
  pub event_ordinal : ℕ

abbrev pub id_beq : EventId → EventId → Bool
id_beq a b =
    (a.signature =? b.signature)
    && (a.absolute_path =? b.absolute_path)
    && (a.event_ordinal =? b.event_ordinal)

pub id_beq_iff : (a b : EventId) → (id_beq a b ≡ true) ↔ (a ≡ b)
id_beq_iff a b = ground (
  arith,
  =?_iff a.signature b.signature,
  =?_iff a.absolute_path b.absolute_path,
  =?_iff a.event_ordinal b.event_ordinal,
)

-- `#[derive(PartialEq, Eq)]`.
instance abbrev pub id_eq : Eq EventId
id_eq = record { beq = id_beq; beq_iff = id_beq_iff }

-- PRIMARY KEY (signature, absolute_path, event_ordinal), with the ordinal an INT.
pub record EventKey : Type 0 where
  pub signature : String
  pub absolute_path : List ℕ
  pub event_ordinal : ℤ

abbrev pub key_beq : EventKey → EventKey → Bool
key_beq a b =
    (a.signature =? b.signature)
    && (a.absolute_path =? b.absolute_path)
    && (a.event_ordinal =? b.event_ordinal)

pub key_beq_iff : (a b : EventKey) → (key_beq a b ≡ true) ↔ (a ≡ b)
key_beq_iff a b = ground (
  arith,
  =?_iff a.signature b.signature,
  =?_iff a.absolute_path b.absolute_path,
  =?_iff a.event_ordinal b.event_ordinal,
)

instance abbrev pub key_eq : Eq EventKey
key_eq = record { beq = key_beq; beq_iff = key_beq_iff }
