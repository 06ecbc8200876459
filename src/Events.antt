-- ===== src/Events.antt =====
-- src/events/store.ts: the in-memory event store. `Date.parse` and the JSON text of a batch stand as
-- parameters of the operations: `parses` says whether a text is a date, `fingerprint` is
-- `stableFingerprint`.
pub mod Laws
use Prim.Native.String
use odin_agent.Prelude.{
  ℕ, zero, suc, ◌+◌, Bool, not, ◌||◌, ◌&&◌, Option, none, some, List, [], ◌∷◌, ◌++◌, String, str_eq,
  Dict, lookup, insert, every, length, ◌==◌, Result, ok, err, ◌>>=◌, ◌>>◌, guard, or_throw,
  if◌then◌else◌,
}
use odin_agent.Prelude.Text.{is_blank}
use odin_agent.Prelude.Number.{Number, safe_nat}

pub record EventAppendItem {ℓ} (T : Type ℓ) : Type ℓ where
  pub occurred_at : String
  pub content : T

pub record StoredEvent {ℓ} (T : Type ℓ) : Type ℓ where
  pub occurred_at : String
  pub content : T
  pub mission_id : String
  pub sequence : ℕ
  pub aggregate_version : ℕ
  pub idempotency_key : String

-- The `TypeError`s of the argument checks, and `EventStoreConflictError`.
pub data StoreError : Type 0 where
  bad_identifier bad_version empty_batch bad_timestamp : StoreError
  key_reused version_conflict : StoreError

pub record IdempotencyRecord {ℓ} (T : Type ℓ) : Type ℓ where
  pub fingerprint : String
  pub events : List (StoredEvent T)

pub record EventStore {ℓ} (T : Type ℓ) : Type ℓ where
  pub streams : Dict (List (StoredEvent T))
  pub idempotency : Dict (IdempotencyRecord T)

-- `${missionId}\u0000${idempotencyKey}`
abbrev pub idempotency_scope : String → String → String
idempotency_scope mission_id key = String.◌++◌ mission_id (String.◌++◌ "\0" key)

module _ {ℓ} {T : Type ℓ} where
  unfoldable pub empty_store : EventStore T
  empty_store = record { streams = []; idempotency = [] }

  -- `this.#streams.get(missionId) ?? []`
  abbrev pub or_empty : Option (List (StoredEvent T)) → List (StoredEvent T)
  or_empty none = []
  or_empty (some es) = es

  abbrev pub stream : EventStore T → String → List (StoredEvent T)
  stream s mission_id = or_empty (lookup mission_id s.streams)

  -- The events of a batch, numbered from `version + 1`.
  unfoldable pub number_events :
      String → String → ℕ → List (EventAppendItem T) → List (StoredEvent T)
  number_events mission_id key version [] = []
  number_events mission_id key version (item ∷ items) =
      record {
        occurred_at = item.occurred_at;
        content = item.content;
        mission_id = mission_id;
        sequence = suc version;
        aggregate_version = suc version;
        idempotency_key = key;
      }
      ∷ number_events mission_id key (suc version) items

  -- The commit of a batch that is no replay.
  unfoldable pub write_batch :
      EventStore T → String → String → String → ℕ → List (EventAppendItem T) → EventStore T
  write_batch s mission_id key fp version items =
      let appended = number_events mission_id key version items in
      record {
        streams = insert mission_id (stream s mission_id ++ appended) s.streams;
        idempotency =
            insert (idempotency_scope mission_id key)
              (record { fingerprint = fp; events = appended }) s.idempotency;
      }

  module _ (parses : String → Bool) (fingerprint : List (EventAppendItem T) → String) where
    abbrev has_date : EventAppendItem T → Bool
    has_date item = not (is_blank item.occurred_at || not (parses item.occurred_at))

    -- The part of `append` behind the checks of its arguments.
    unfoldable pub append_checked :
        EventStore T
        → String
        → ℕ
        → String
        → List (EventAppendItem T)
        → Result StoreError (EventStore T × List (StoredEvent T))
    append_checked s mission_id version key items =
        let fp = fingerprint items in
        elim (lookup (idempotency_scope mission_id key) s.idempotency) [
          | some replay ↦ guard (str_eq replay.fingerprint fp) key_reused >> ok (s, replay.events)
          | none ↦
              guard (length (stream s mission_id) == version) version_conflict
              >> ok (
                write_batch s mission_id key fp version items,
                number_events mission_id key version items,
              )
        ]

    unfoldable pub append :
        EventStore T
        → String
        → Number
        → String
        → List (EventAppendItem T)
        → Result StoreError (EventStore T × List (StoredEvent T))
    append s mission_id expected_version key items = do
      guard (not (is_blank mission_id)) bad_identifier
      guard (not (is_blank key)) bad_identifier
      version ← or_throw (safe_nat expected_version) bad_version
      guard (not (length items == 0)) empty_batch
      guard (every has_date items) bad_timestamp
      append_checked s mission_id version key items

  unfoldable pub load : EventStore T → String → Result StoreError (List (StoredEvent T))
  load s mission_id = guard (not (is_blank mission_id)) bad_identifier >> ok (stream s mission_id)
