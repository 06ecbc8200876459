-- ===== src/Mission/Graph/Fuel.antt =====
-- The search of validateTaskGraph never runs out of the fuel that the model gives it.
use odin_agent.Prelude.{
  ℕ, zero, suc, ◌+◌, ◌<◌, ◌≡◌, true, false, inl, inr, ◌≢◌, some, List, ◌∷◌, String, arith, Dict,
  lookup, keys, has-keys, has, is_distinct, length, length-le_of_subset, eq_iff, err, subst, sym,
}
use odin_agent.Mission.State.{out_of_fuel}
use odin_agent.Mission.Graph.{MissionTask, Visit, visit}
use odin_agent.Mission.Graph.Search.{visit-err}

-- The ids under visit are distinct tasks, and the fuel exceeds the number of the other tasks.
pub record HasFuel (g : Dict MissionTask) (fuel : ℕ) (path : List String) : Type 0 where
  pub distinct : is_distinct path ≡ true
  pub known : (k : String) → has path k ≡ true → has (keys g) k ≡ true
  pub enough : length (keys g) < fuel + length path

module _ (g : Dict MissionTask) (unique : is_distinct (keys g) ≡ true) where
  HasFuel-step :
      (fuel : ℕ) (path : List String) (id : String) (t : MissionTask)
      → HasFuel g (suc fuel) path
      → has path id ≡ false
      → lookup id g ≡ some t
      → HasFuel g fuel (id ∷ path)
  unfolding has is_distinct
  HasFuel-step fuel path id t h new l = record {
    distinct = ground (arith, h.distinct);
    known = λ k m. ground (arith, eq_iff id k, h.known k, has-keys k g);
    enough = omega (arith, h.enough);
  }

  pub visit_in_fuel :
      (fuel : ℕ) (s : Visit) (id : String)
      → HasFuel g fuel s.visiting
      → visit fuel g s id ≢ err out_of_fuel
  visit_in_fuel zero s id h e =
      absurd
        (omega (arith, length-le_of_subset s.visiting (keys g) h.distinct unique h.known, h.enough))
  visit_in_fuel (suc fuel) s id h e = elim (visit-err fuel g s id out_of_fuel e) [
    | inl (_, c) ↦ cc
    | inr (inl (_, c)) ↦ cc
    | inr (inr (new, t, l, u, d, p, m, last)) ↦
        visit_in_fuel fuel u d
          (subst (HasFuel g fuel) (sym p) (HasFuel-step fuel s.visiting id t h new l)) last
  ]
