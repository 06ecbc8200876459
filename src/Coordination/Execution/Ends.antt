-- ===== src/Coordination/Execution/Ends.antt =====
-- src/coordination/coordinator.ts: a used plan stays used when plans end, expire or are pruned.
use odin_agent.Prelude.{
  ℕ, ◌≡◌, ◌⊎◌, refl, sym, subst, Bool, true, false, Option, none, some, [], ◌∷◌, String, Dict,
  delete, keys, ltb, leb, length, ok, err, All, Bool-cases, inl, inr, if◌then◌else◌,
}
use odin_agent.Coordination.Types.{PlanBody, clock_backwards}
use odin_agent.Coordination.Outcomes.{Hashed}
use odin_agent.Coordination.State.{
  PlanRecord, Coordinator, Outcome, and_then, is_released, release_record, expire_each,
  expire_plans, prune_each, prune_result, prune_plan_records, read_clock, advance, released,
}
use odin_agent.Coordination.Execution.{release_found}
use odin_agent.Coordination.Execution.Used.{IsIssued, Holds, HoldsIn, Holds-insert, Holds-delete}

module _ (stable_hash : Hashed → String) (used : Option PlanBody) where
  pub if-HoldsIn :
      (b : Bool) (c d : Coordinator)
      → HoldsIn stable_hash used c
      → HoldsIn stable_hash used d
      → HoldsIn stable_hash used (if b then c else d)
  if-HoldsIn true c d h k = h
  if-HoldsIn false c d h k = k

  pub if-first :
      {A : Type 0} (b : Bool) (m n : Outcome A)
      → HoldsIn stable_hash used m.0
      → HoldsIn stable_hash used n.0
      → HoldsIn stable_hash used (if b then m else n).0
  if-first true m n h k = h
  if-first false m n h k = k

  pub and_then-HoldsIn :
      {A B : Type 0} (m : Outcome A) (next : Coordinator → A → Outcome B)
      → HoldsIn stable_hash used m.0
      → ((c : Coordinator) (a : A)
          → HoldsIn stable_hash used c
          → HoldsIn stable_hash used (next c a).0)
      → HoldsIn stable_hash used (and_then m next).0
  and_then-HoldsIn (c, ok a) next h k = k c a h
  and_then-HoldsIn (c, err e) next h k = h

  pub release_record-HoldsIn :
      (hash : String) (r : PlanRecord) (c : Coordinator)
      → IsIssued stable_hash c.plan_generation hash
      → HoldsIn stable_hash used c
      → HoldsIn stable_hash used (release_record stable_hash hash r c)
  unfolding release_record
  release_record-HoldsIn hash r c i h = elim (Bool-cases (is_released r.phase)) [
    | inl e ↦ rw e h
    | inr e ↦ rw e (
        Holds-insert stable_hash used c.plan_generation hash
          (record r { controllers = []; phase = released }) c.plans refl i h)
  ]

  release_record-generation :
      (hash : String) (r : PlanRecord) (c : Coordinator)
      → (release_record stable_hash hash r c).plan_generation ≡ c.plan_generation
  unfolding release_record
  release_record-generation hash r c = elim (Bool-cases (is_released r.phase)) [
    | inl e ↦ rw e refl
    | inr e ↦ rw e refl
  ]

  expire_each-HoldsIn :
      (now : ℕ) (records : Dict PlanRecord) (c : Coordinator)
      → All (IsIssued stable_hash c.plan_generation) (keys records)
      → HoldsIn stable_hash used c
      → HoldsIn stable_hash used (expire_each stable_hash now records c)
  expire_each-HoldsIn now [] c i h = h
  expire_each-HoldsIn now ((hash, r) ∷ rest) c i h =
      let freed = release_record stable_hash hash r c in
      let step = λ (d : Coordinator).
        All (IsIssued stable_hash d.plan_generation) (keys rest) × HoldsIn stable_hash used d in
      let one : step freed = (
        subst (λ (n : ℕ). All (IsIssued stable_hash n) (keys rest))
            (sym (release_record-generation hash r c)) i.1,
        release_record-HoldsIn hash r c i.0 h,
      ) in
      elim (Bool-cases (leb r.expires_at_ms now)) [
        | inl e ↦
            subst
              (λ (b : Bool).
                HoldsIn stable_hash used
                  (expire_each stable_hash now rest (if b then freed else c)))
              (sym e) (expire_each-HoldsIn now rest freed one.0 one.1)
        | inr e ↦
            subst
              (λ (b : Bool).
                HoldsIn stable_hash used
                  (expire_each stable_hash now rest (if b then freed else c)))
              (sym e) (expire_each-HoldsIn now rest c i.1 h)
      ]

  pub expire_plans-HoldsIn :
      (now : ℕ) (c : Coordinator)
      → HoldsIn stable_hash used c
      → HoldsIn stable_hash used (expire_plans stable_hash now c)
  unfolding expire_plans
  expire_plans-HoldsIn now c h = expire_each-HoldsIn now c.plans c h.0 h

  prune_each-Holds :
      (n limit : ℕ) (records plans : Dict PlanRecord)
      → Holds stable_hash used n plans
      → Holds stable_hash used n (prune_each limit records plans).0
  prune_each-Holds n limit [] plans h = h
  prune_each-Holds n limit ((hash, r) ∷ rest) plans h =
      let pruned = if is_released r.phase then delete hash plans else plans in
      let kept : Holds stable_hash used n pruned = elim (Bool-cases (is_released r.phase)) [
        | inl e ↦
            subst (λ (b : Bool). Holds stable_hash used n (if b then delete hash plans else plans))
              (sym e) (Holds-delete stable_hash used n hash plans h)
        | inr e ↦
            subst (λ (b : Bool). Holds stable_hash used n (if b then delete hash plans else plans))
              (sym e) h
      ] in
      let stop : Dict PlanRecord × Bool = (pruned, true) in
      elim (Bool-cases (ltb (length pruned) limit)) [
        | inl e ↦
            subst
              (λ (b : Bool).
                Holds stable_hash used n (if b then stop else prune_each limit rest pruned).0)
              (sym e) kept
        | inr e ↦
            subst
              (λ (b : Bool).
                Holds stable_hash used n (if b then stop else prune_each limit rest pruned).0)
              (sym e) (prune_each-Holds n limit rest pruned kept)
      ]

  prune_result-HoldsIn :
      (c : Coordinator) (pruned : Dict PlanRecord × Bool)
      → Holds stable_hash used c.plan_generation pruned.0
      → HoldsIn stable_hash used (prune_result c pruned).0
  prune_result-HoldsIn c (plans, true) h = h
  prune_result-HoldsIn c (plans, false) h = h

  pub prune-HoldsIn :
      (c : Coordinator)
      → HoldsIn stable_hash used c
      → HoldsIn stable_hash used (prune_plan_records c).0
  unfolding prune_plan_records
  prune-HoldsIn c h =
      let limit = c.options.max_plan_records in
      let pruned = prune_each limit c.plans c.plans in
      if-first (ltb (length c.plans) limit) (c, ok tt) (prune_result c pruned) h
        (prune_result-HoldsIn c pruned (prune_each-Holds c.plan_generation limit c.plans c.plans h))

  advance-HoldsIn :
      (now : ℕ) (last : Option ℕ) (c : Coordinator)
      → HoldsIn stable_hash used c
      → HoldsIn stable_hash used (advance now last c).0
  advance-HoldsIn now none c h = h
  advance-HoldsIn now (some last) c h =
      if-first (ltb now last) (c, err clock_backwards)
        (record c { last_clock_ms = some now }, ok now) h h

  pub read_clock-HoldsIn :
      (reading : Option ℕ) (c : Coordinator)
      → HoldsIn stable_hash used c
      → HoldsIn stable_hash used (read_clock reading c).0
  unfolding read_clock
  read_clock-HoldsIn none c h = h
  read_clock-HoldsIn (some now) c h = advance-HoldsIn now c.last_clock_ms c h

  pub release_found-HoldsIn :
      (hash : String) (found : Option PlanRecord) (c : Coordinator)
      → (found ≡ none) ⊎ IsIssued stable_hash c.plan_generation hash
      → HoldsIn stable_hash used c
      → HoldsIn stable_hash used (release_found stable_hash hash found c)
  release_found-HoldsIn hash none c i h = h
  release_found-HoldsIn hash (some r) c (inl e) h = absurd (cc)
  release_found-HoldsIn hash (some r) c (inr i) h = release_record-HoldsIn hash r c i h
