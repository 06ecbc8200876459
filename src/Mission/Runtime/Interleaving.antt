-- ===== src/Mission/Runtime/Interleaving.antt =====
-- The calls of a MissionRuntime (src/mission/runtime.ts) as steps: between the batch that a method
-- makes and its append, other calls may make and append theirs.
use mathlib.Core.List.{append-nil, append_assoc}
use odin_agent.Prelude.{
  ◌≡◌, sym, ap, ◌∙◌, subst, Bool, List, [], ◌∷◌, ◌++◌, ◌⊎◌, inl, inr, String, All, lookup, ok,
  Result-cases,
}
use odin_agent.Events.{stream, empty_store, append}
use odin_agent.Mission.Project.{MissionEvent}
use odin_agent.Mission.Runtime.{Store, Item, Batch, Call, reload, prepare, commit}
use odin_agent.Mission.Runtime.Made.{prepare-Sound}
use odin_agent.Mission.Runtime.Consistency.{IsConsistent, IsDue, append-grows, append-IsConsistent}

pub record System : Type 0 where
  pub store : Store
  pub pending : List Batch

pub IsDue-now : (s : Store) (c : Call) (b : Batch) → prepare s c ≡ ok b → IsDue s b
IsDue-now s c b made = record {
  seen = stream s b.mission_id;
  grown = [];
  now = sym (append-nil (stream s b.mission_id));
  sound = prepare-Sound s c b made;
}

module _ (parses : String → Bool) (fingerprint : List Item → String) where
  -- A call passes its checks and its batch waits, or a waiting batch is appended.
  pub data Step (y : System) : System → Type 0 where
    begin :
        (c : Call) (b : Batch)
        → prepare y.store c ≡ ok b
        → Step y (record { store = y.store; pending = b ∷ y.pending })
    finish :
        (before after : List Batch) (b : Batch)
        → y.pending ≡ before ++ b ∷ after
        → Step y
            (record { store = (commit parses fingerprint y.store b).0; pending = before ++ after })

  pub data Reach : System → Type 0 where
    initial : Reach (record { store = empty_store; pending = [] })
    next : (y z : System) → Reach y → Step y z → Reach z

  pub record IsSound (y : System) : Type 0 where
    pub replays : IsConsistent y.store
    pub due : All (IsDue y.store) y.pending

  commit-cases :
      (s : Store) (b : Batch)
      → ((commit parses fingerprint s b).0 ≡ s)
        ⊎ ((out : List MissionEvent) × (s' : Store) × (append parses fingerprint s b.mission_id
                b.expected_version b.key b.items
              ≡ ok (s', out))
            × ((commit parses fingerprint s b).0 ≡ s'))
  unfolding commit
  commit-cases s b =
      elim (Result-cases
        (append parses fingerprint s b.mission_id b.expected_version b.key b.items)) [
          | inr (e, p) ↦ inl (ap (λ r. (reload s b.mission_id r).0) p)
          | inl (w, p) ↦ inr (w.1, w.0, p, ap (λ r. (reload s b.mission_id r).0) p)
        ]

  still-IsDue :
      (s : Store) (b : Batch) (s' : Store) (out : List MissionEvent)
      → append parses fingerprint s b.mission_id b.expected_version b.key b.items ≡ ok (s', out)
      → (c : Batch) → IsDue s c
      → IsDue s' c
  still-IsDue s b s' out h c due =
      let (more, grown) = append-grows parses fingerprint s b s' out h c.mission_id in
      record {
        seen = due.seen;
        grown = due.grown ++ more;
        now = grown ∙ ap (λ xs. xs ++ more) due.now ∙ append_assoc due.seen due.grown more;
        sound = due.sound;
      }

  All-map :
      (P Q : Batch → Type 0) (xs : List Batch) → ((b : Batch) → P b → Q b) → All P xs → All Q xs
  All-map P Q [] f all = all
  All-map P Q (x ∷ xs) f (p, all) = (f x p, All-map P Q xs f all)

  All-without :
      (P : Batch → Type 0) (xs : List Batch) (b : Batch) (ys : List Batch)
      → All P (xs ++ b ∷ ys)
      → P b × All P (xs ++ ys)
  All-without P [] b ys (p, all) = (p, all)
  All-without P (x ∷ xs) b ys (p, all) = let (q, rest) = All-without P xs b ys all in (q, (p, rest))

  Step-IsSound : (y z : System) → IsSound y → Step y z → IsSound z
  Step-IsSound y z sound (begin c b made) = record {
    replays = sound.replays;
    due = (IsDue-now y.store c b made, sound.due);
  }
  Step-IsSound y z sound (finish before after b waits) =
      let (due_b, others) =
        All-without (IsDue y.store) before b after
          (subst (λ bs. All (IsDue y.store) bs) waits sound.due) in
      elim (commit-cases y.store b) [
        | inl same ↦
            subst (λ (x : Store). IsSound (record { store = x; pending = before ++ after }))
              (sym same) (record { replays = sound.replays; due = others })
        | inr (out, s', h, same) ↦
            subst (λ (x : Store). IsSound (record { store = x; pending = before ++ after }))
              (sym same)
              (record {
                replays =
                    append-IsConsistent parses fingerprint y.store b s' out sound.replays due_b h;
                due =
                    All-map (IsDue y.store) (IsDue s') (before ++ after)
                      (still-IsDue y.store b s' out h) others;
              })
      ]

  -- From an empty store, whatever the order in which calls pass their checks and append their
  -- batches: every stream of the store is empty, or holds its own mission and replays without an
  -- error, and every waiting batch was sound for a stream that has at most grown since.
  pub Reach-IsSound : (y : System) → Reach y → IsSound y
  Reach-IsSound _ initial = record { replays = λ id. unfold empty_store lookup in tt; due = tt }
  Reach-IsSound _ (next x z r s) = Step-IsSound x z (Reach-IsSound x r) s
