-- ===== src/Events/Laws.antt =====
-- The in-memory event store: a commit extends one stream by the batch, numbered on.
use odin_agent.Prelude.{
  ℕ, suc, ◌≡◌, ◌≢◌, refl, sym, ap, ◌∙◌, Bool, false, ◌⊎◌, inl, inr, Bool-cases, Option-cases, none,
  some, List, [], ◌∷◌, ◌++◌, String, str_eq, eq_iff, eq_refl, arith, lookup, lookup-insert, every,
  ◌==◌, length, ok, if◌then◌else◌,
}
use odin_agent.Prelude.Text.{is_blank}
use odin_agent.Prelude.Number.{Number, safe_nat}
use odin_agent.Events.{
  EventAppendItem, StoredEvent, IdempotencyRecord, EventStore, idempotency_scope, stream,
  number_events, write_batch, append_checked, append, has_date,
}

module _ {ℓ} {T : Type ℓ} where
  pub length-number_events :
      (id key : String) (n : ℕ) (items : List (EventAppendItem T))
      → length (number_events id key n items) ≡ length items
  unfolding number_events
  length-number_events id key n [] = refl
  length-number_events id key n (x ∷ xs) = ap suc (length-number_events id key (suc n) xs)

  pub stream-write_batch :
      (s : EventStore T) (id key fp : String) (n : ℕ) (items : List (EventAppendItem T))
      (j : String)
      → stream (write_batch s id key fp n items) j
        ≡ (if str_eq id j then stream s id ++ number_events id key n items else stream s j)
  unfolding write_batch
  stream-write_batch s id key fp n items j =
      ground (arith, lookup-insert id j (stream s id ++ number_events id key n items) s.streams)

module _ {ℓ} {T : Type ℓ} (parses : String → Bool)
    (fingerprint : List (EventAppendItem T) → String) where
  -- The two ways in which an append succeeds: a replay, which changes nothing, or a new batch at
  -- the version that the caller expects.
  pub append-cases :
      (s : EventStore T) (id : String) (expected : Number) (key : String)
      (items : List (EventAppendItem T)) (s' : EventStore T) (out : List (StoredEvent T))
      → append parses fingerprint s id expected key items ≡ ok (s', out)
      → ((r : IdempotencyRecord T) × (lookup (idempotency_scope id key) s.idempotency ≡ some r)
          × (r.fingerprint ≡ fingerprint items)
          × (out ≡ r.events)
          × (s' ≡ s))
        ⊎ ((n : ℕ) × (safe_nat expected ≡ some n)
            × (lookup (idempotency_scope id key) s.idempotency ≡ none)
            × (length (stream s id) ≡ n)
            × (out ≡ number_events id key n items)
            × (s' ≡ write_batch s id key (fingerprint items) n items))
  unfolding append append_checked
  append-cases s id expected key items s' out h = elim (Option-cases (safe_nat expected)) [
    | inl p ↦ absurd (ground arith)
    | inr (n, p) ↦ elim (Option-cases (lookup (idempotency_scope id key) s.idempotency)) [
      | inl q ↦ inr (n, p, q, ground arith, ground arith, ground arith)
      | inr (r, q) ↦ inl (
        r,
        q,
        ground (arith, eq_iff r.fingerprint (fingerprint items)),
        ground arith,
        ground arith,
      )
    ]
  ]

  -- An append that succeeds was given an identifier and at least one event.
  pub append-guards :
      (s : EventStore T) (id : String) (expected : Number) (key : String)
      (items : List (EventAppendItem T)) (w : EventStore T × List (StoredEvent T))
      → append parses fingerprint s id expected key items ≡ ok w
      → (is_blank id ≡ false) × (length items ≢ 0)
  unfolding append
  append-guards s id expected key items w h = elim (Bool-cases (is_blank id)) [
    | inl blank ↦ absurd (ground arith)
    | inr named ↦ (named, λ empty. absurd (ground arith))
  ]

  -- The checks of the arguments do not read the store.
  append-checked :
      (s : EventStore T) (id : String) (expected : Number) (key : String)
      (items : List (EventAppendItem T)) (w : EventStore T × List (StoredEvent T))
      → append parses fingerprint s id expected key items ≡ ok w
      → (n : ℕ) × ((t : EventStore T)
          → append parses fingerprint t id expected key items
            ≡ append_checked parses fingerprint t id n key items)
  unfolding append
  append-checked s id expected key items w h = elim (Option-cases (safe_nat expected)) [
    | inl p ↦ absurd (ground arith)
    | inr (n, p) ↦ elim (Bool-cases (is_blank id)) [
      | inl q ↦ absurd (ground arith)
      | inr q ↦ elim (Bool-cases (is_blank key)) [
        | inl r ↦ absurd (ground arith)
        | inr r ↦ elim (Bool-cases (every (has_date parses fingerprint) items)) [
          | inr d ↦ absurd (ground arith)
          | inl d ↦ elim (Bool-cases (length items == 0)) [
            | inl l ↦ absurd (ground arith)
            | inr l ↦ (n, λ t. rw (q, r, p, l, d))
          ]
        ]
      ]
    ]
  ]

  recorded :
      (s : EventStore T) (id key fp : String) (n : ℕ) (items : List (EventAppendItem T))
      → lookup (idempotency_scope id key) (write_batch s id key fp n items).idempotency
        ≡ some (record { fingerprint = fp; events = number_events id key n items })
  unfolding write_batch
  recorded s id key fp n items =
      lookup-insert (idempotency_scope id key) (idempotency_scope id key) _ s.idempotency
      ∙ rw (eq_refl (idempotency_scope id key))

  retry_checked :
      (s : EventStore T) (id : String) (n : ℕ) (key : String) (items : List (EventAppendItem T))
      (r : IdempotencyRecord T)
      → lookup (idempotency_scope id key) s.idempotency ≡ some r
      → r.fingerprint ≡ fingerprint items
      → append_checked parses fingerprint s id n key items ≡ ok (s, r.events)
  unfolding append_checked
  retry_checked s id n key items r found same =
      ground (arith, found, (eq_iff r.fingerprint (fingerprint items)).1 same)

  -- An append that succeeded, repeated, returns the same events and changes nothing.
  pub append-retry :
      (s : EventStore T) (id : String) (expected : Number) (key : String)
      (items : List (EventAppendItem T)) (s' : EventStore T) (out : List (StoredEvent T))
      → append parses fingerprint s id expected key items ≡ ok (s', out)
      → append parses fingerprint s' id expected key items ≡ ok (s', out)
  append-retry s id expected key items s' out h =
      elim (append-cases s id expected key items s' out h) [
        | inl (_, _, _, _, same) ↦
            ap (λ t. append parses fingerprint t id expected key items) same ∙ h
        | inr (n, _, _, _, made, written) ↦
            let (k, checked) = append-checked s id expected key items (s', out) h in
            let found =
              ap (λ (t : EventStore T). lookup (idempotency_scope id key) t.idempotency) written
              ∙ recorded s id key (fingerprint items) n items in
            checked s'
            ∙ retry_checked s' id k key items _ found refl
            ∙ ap (λ xs. ok (s', xs)) (sym made)
      ]
