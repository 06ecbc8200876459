-- ===== src/Coordination/Execution/Used.antt =====
-- src/coordination/coordinator.ts: the plans that a coordinator has issued, and one that can no longer start.
use odin_agent.Prelude.{
  ℕ, suc, ◌≤◌, ◌≡◌, ◌≢◌, refl, sym, ap, ◌∙◌, subst, Bool, false, Option, none, some, [], ◌∷◌,
  String, str_eq, eq_iff, arith, Dict, lookup, insert, delete, keys, lookup-insert, All, Bool-cases,
  inl, inr, if◌then◌else◌,
}
use odin_agent.Coordination.Types.{PlanBody}
use odin_agent.Coordination.Outcomes.{Hashed, of_plan_body}
use odin_agent.Coordination.State.{PlanRecord, Coordinator, is_reserved}

module _ {V : Type 0} where
  lookup-delete :
      (key other : String) (dict : Dict V)
      → lookup other (delete key dict) ≡ (if str_eq key other then none else lookup other dict)
  unfolding lookup delete
  lookup-delete key other [] = ground arith
  lookup-delete key other ((first, old) ∷ rest) =
      ground (
        arith,
        lookup-delete key other rest,
        eq_iff first key,
        eq_iff first other,
        eq_iff key other,
      )

  keys-insert :
      (P : String → Type 0) (key : String) (value : V) (dict : Dict V)
      → P key
      → All P (keys dict)
      → All P (keys (insert key value dict))
  unfolding insert
  keys-insert P key value [] h hs = (h, tt)
  keys-insert P key value ((other, old) ∷ rest) h hs =
      let more = keys-insert P key value rest h hs.1 in
      elim (Bool-cases (str_eq other key)) [ inl e ↦ rw e (hs.0, hs.1) | inr e ↦ rw e (hs.0, more) ]

  keys-delete :
      (P : String → Type 0) (key : String) (dict : Dict V)
      → All P (keys dict)
      → All P (keys (delete key dict))
  unfolding delete
  keys-delete P key [] hs = tt
  keys-delete P key ((other, old) ∷ rest) hs =
      let more = keys-delete P key rest hs.1 in
      elim (Bool-cases (str_eq other key)) [ inl e ↦ rw e more | inr e ↦ rw e (hs.0, more) ]

  pub keys-lookup :
      (P : String → Type 0) (key : String) (dict : Dict V) {value : V}
      → lookup key dict ≡ some value
      → All P (keys dict)
      → P key
  unfolding lookup
  keys-lookup P key [] e hs = absurd (cc)
  keys-lookup P key ((other, old) ∷ rest) {value} e hs = elim (Bool-cases (str_eq other key)) [
    | inl f ↦ subst P ((eq_iff other key).0 f) hs.0
    | inr f ↦ keys-lookup P key rest {value = value} (ground arith) hs.1
  ]

  keys-widen :
      (P Q : String → Type 0) (dict : Dict V)
      → ((k : String) → P k → Q k)
      → All P (keys dict)
      → All Q (keys dict)
  keys-widen P Q [] f h = tt
  keys-widen P Q ((k, v) ∷ rest) f h = (f k h.0, keys-widen P Q rest f h.1)

abbrev pub is_startable : Option PlanRecord → Bool
is_startable none = false
is_startable (some r) = is_reserved r.phase

module _ (stable_hash : Hashed → String) where
  -- A hash of a plan with one of the first n generations.
  abbrev pub IsIssued : ℕ → String → Type 0
  IsIssued n hash =
      (body : PlanBody) × (hash ≡ stable_hash (of_plan_body body)) × (body.generation ≤ n)

  -- The plan, where there is one, has one of the first n generations and cannot be started.
  abbrev pub IsUsed : Option PlanBody → ℕ → Dict PlanRecord → Type 0
  IsUsed none n plans = Unit
  IsUsed (some body) n plans =
      (body.generation ≤ n)
      × (is_startable (lookup (stable_hash (of_plan_body body)) plans) ≡ false)

  -- All keys have been issued, and the plan is used.
  abbrev pub Holds : Option PlanBody → ℕ → Dict PlanRecord → Type 0
  Holds used n plans = All (IsIssued n) (keys plans) × IsUsed used n plans

  abbrev pub HoldsIn : Option PlanBody → Coordinator → Type 0
  HoldsIn used c = Holds used c.plan_generation c.plans

  -- A record that cannot be started keeps it so.
  IsUsed-insert :
      (used : Option PlanBody) (n : ℕ) (key : String) (r : PlanRecord) (plans : Dict PlanRecord)
      → is_reserved r.phase ≡ false
      → IsUsed used n plans
      → IsUsed used n (insert key r plans)
  IsUsed-insert none n key r plans e h = tt
  IsUsed-insert (some body) n key r plans e h =
      let hash = stable_hash (of_plan_body body) in
      (
        h.0,
        elim (Bool-cases (str_eq key hash)) [
          | inl f ↦ rw (lookup-insert key hash r plans) (rw f e)
          | inr f ↦ rw (lookup-insert key hash r plans) (rw f h.1)
        ],
      )

  pub Holds-insert :
      (used : Option PlanBody) (n : ℕ) (key : String) (r : PlanRecord) (plans : Dict PlanRecord)
      → is_reserved r.phase ≡ false
      → IsIssued n key
      → Holds used n plans
      → Holds used n (insert key r plans)
  Holds-insert used n key r plans e i h =
      (keys-insert (IsIssued n) key r plans i h.0, IsUsed-insert used n key r plans e h.1)

  IsUsed-same :
      (used : Option PlanBody) (n : ℕ) (key : String) (r old : PlanRecord) (plans : Dict PlanRecord)
      → lookup key plans ≡ some old
      → is_reserved r.phase ≡ is_reserved old.phase
      → IsUsed used n plans
      → IsUsed used n (insert key r plans)
  IsUsed-same none n key r old plans l e h = tt
  IsUsed-same (some body) n key r old plans l e h =
      let hash = stable_hash (of_plan_body body) in
      (
        h.0,
        elim (Bool-cases (str_eq key hash)) [
          | inl f ↦
              let found : lookup hash plans ≡ some old =
                subst (λ (k : String). lookup k plans ≡ some old) ((eq_iff key hash).0 f) l in
              rw (lookup-insert key hash r plans) (rw f (e ∙ sym (ap is_startable found) ∙ h.1))
          | inr f ↦ rw (lookup-insert key hash r plans) (rw f h.1)
        ],
      )

  pub Holds-same :
      (used : Option PlanBody) (n : ℕ) (key : String) (r old : PlanRecord) (plans : Dict PlanRecord)
      → lookup key plans ≡ some old
      → is_reserved r.phase ≡ is_reserved old.phase
      → Holds used n plans
      → Holds used n (insert key r plans)
  Holds-same used n key r old plans l e h = (
    keys-insert (IsIssued n) key r plans (keys-lookup (IsIssued n) key plans l h.0) h.0,
    IsUsed-same used n key r old plans l e h.1,
  )

  IsUsed-delete :
      (used : Option PlanBody) (n : ℕ) (key : String) (plans : Dict PlanRecord)
      → IsUsed used n plans
      → IsUsed used n (delete key plans)
  IsUsed-delete none n key plans h = tt
  IsUsed-delete (some body) n key plans h =
      let hash = stable_hash (of_plan_body body) in
      (
        h.0,
        elim (Bool-cases (str_eq key hash)) [
          | inl f ↦ rw (lookup-delete key hash plans) (rw f refl)
          | inr f ↦ rw (lookup-delete key hash plans) (rw f h.1)
        ],
      )

  pub Holds-delete :
      (used : Option PlanBody) (n : ℕ) (key : String) (plans : Dict PlanRecord)
      → Holds used n plans
      → Holds used n (delete key plans)
  Holds-delete used n key plans h =
      (keys-delete (IsIssued n) key plans h.0, IsUsed-delete used n key plans h.1)

  -- Plans of different generations have different hashes.
  abbrev pub AreApart : Type 0
  AreApart =
      (a b : PlanBody)
      → a.generation ≢ b.generation
      → stable_hash (of_plan_body a) ≢ stable_hash (of_plan_body b)

  IsUsed-new :
      AreApart
      → (used : Option PlanBody) (body : PlanBody) (r : PlanRecord) (n : ℕ)
        (plans : Dict PlanRecord)
      → body.generation ≡ suc n
      → IsUsed used n plans
      → IsUsed used (suc n) (insert (stable_hash (of_plan_body body)) r plans)
  IsUsed-new apart none body r n plans e h = tt
  IsUsed-new apart (some old) body r n plans e h =
      let hash = stable_hash (of_plan_body old) in
      let new = stable_hash (of_plan_body body) in
      let differ = apart body old (λ s. omega (arith, h.0, e, s)) in
      (
        omega (arith, h.0),
        elim (Bool-cases (str_eq new hash)) [
          | inl f ↦ absurd (differ ((eq_iff new hash).0 f))
          | inr f ↦ rw (lookup-insert new hash r plans) (rw f h.1)
        ],
      )

  pub Holds-new :
      AreApart
      → (used : Option PlanBody) (body : PlanBody) (r : PlanRecord) (n : ℕ)
        (plans : Dict PlanRecord)
      → body.generation ≡ suc n
      → Holds used n plans
      → Holds used (suc n) (insert (stable_hash (of_plan_body body)) r plans)
  Holds-new apart used body r n plans e h = (
    keys-insert (IsIssued (suc n)) (stable_hash (of_plan_body body)) r plans
        (body, refl, omega (arith, e))
        (keys-widen (IsIssued n) (IsIssued (suc n)) plans (λ k i. (i.0, i.1, omega (arith, i.2)))
          h.0),
    IsUsed-new apart used body r n plans e h.1,
  )
