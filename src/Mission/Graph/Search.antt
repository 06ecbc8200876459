-- ===== src/Mission/Graph/Search.antt =====
-- The depth-first search of validateTaskGraph: what a visit that ends leaves behind.
use odin_agent.Prelude.{
  ℕ, zero, suc, ◌≡◌, refl, ◌∙◌, ap, true, false, Bool-cases, Option-cases, subst, sym, ◌⊎◌, inl,
  inr, none, some, List, [], ◌∷◌, String, arith, every, Dict, lookup, has, has_self, remove,
  remove-cons_self, has-cons, Result, ok, err, fold_result, >>=-eq-ok, >>=-eq-err, Result-cases,
}
use odin_agent.Mission.State.{MissionError, task_cycle, unknown_task}
use odin_agent.Mission.Graph.{MissionTask, Visit, visit}

-- Newest first, each id stands before the ids that its task depends on.
abbrev pub Topo : Dict MissionTask → List String → Type 0
Topo by_id [] = Unit
Topo by_id (x ∷ xs) =
    ((t : MissionTask) × (lookup x by_id ≡ some t) × (every (has xs) t.depends_on ≡ true))
    × Topo by_id xs

-- What a call that ends keeps of the state before it.
pub record Keeps (by_id : Dict MissionTask) (s s' : Visit) : Type 0 where
  pub path : s'.visiting ≡ s.visiting
  pub grows : (k : String) → has s.visited k ≡ true → has s'.visited k ≡ true
  pub ordered : Topo by_id s.visited → Topo by_id s'.visited

Keeps-refl : (g : Dict MissionTask) (s : Visit) → Keeps g s s
Keeps-refl g s = record { path = refl; grows = λ k h. h; ordered = λ h. h }

Keeps-trans : (g : Dict MissionTask) (s t u : Visit) → Keeps g s t → Keeps g t u → Keeps g s u
Keeps-trans g s t u a b = record {
  path = b.path ∙ a.path;
  grows = λ k h. b.grows k (a.grows k h);
  ordered = λ h. b.ordered (a.ordered h);
}

pub every-grows :
    (xs ys ds : List String)
    → ((k : String) → has xs k ≡ true → has ys k ≡ true)
    → every (has xs) ds ≡ true
    → every (has ys) ds ≡ true
every-grows xs ys [] h e = refl
every-grows xs ys (d ∷ ds) h e = ground (arith, h d, every-grows xs ys ds h)

-- A loop of visits, from what one visit does.
module _ (g : Dict MissionTask) (step : Visit → String → Result MissionError Visit)
    (sound : (s : Visit) (id : String) (s' : Visit)
      → step s id ≡ ok s'
      → Keeps g s s' × (has s'.visited id ≡ true)) where
  pub fold-Keeps :
      (s : Visit) (ids : List String) (s' : Visit)
      → fold_result step s ids ≡ ok s'
      → Keeps g s s' × (every (has s'.visited) ids ≡ true)
  fold-Keeps s [] s' e =
      let same : s ≡ s' = cc in (subst (λ u. Keeps g s u) same (Keeps-refl g s), refl)
  fold-Keeps s (id ∷ ids) s' e =
      let (t, first, rest) = >>=-eq-ok (step s id) _ e in
      let one = sound s id t first in
      let more = fold-Keeps t ids s' rest in
      (Keeps-trans g s t s' one.0 more.0, ground (arith, more.0.grows id one.1))

-- The two ways in which a visit ends.
pub visit-cases :
    (fuel : ℕ) (g : Dict MissionTask) (s : Visit) (id : String) (s' : Visit)
    → visit (suc fuel) g s id ≡ ok s'
    → ((has s.visited id ≡ true) × (s ≡ s'))
      ⊎ ((has s.visiting id ≡ false)
          × (t : MissionTask) × (lookup id g ≡ some t)
          × (u : Visit) × (fold_result
                (visit fuel g)
                (record s { visiting = id ∷ s.visiting })
                t.depends_on
              ≡ ok u)
          × (s' ≡ record { visiting = remove id u.visiting; visited = id ∷ u.visited }))
unfolding visit
visit-cases fuel g s id s' e = elim (Bool-cases (has s.visiting id)) [
  | inl h ↦ absurd (ground arith)
  | inr h ↦ elim (Bool-cases (has s.visited id)) [
    | inl k ↦ inl (k, ground arith)
    | inr k ↦ elim (Option-cases (lookup id g)) [
      | inl l ↦ absurd (ground arith)
      | inr (t, l) ↦
          let (u, a, b) =
            >>=-eq-ok
              (fold_result (visit fuel g) (record s { visiting = id ∷ s.visiting }) t.depends_on)
              (λ v. ok (record { visiting = remove id v.visiting; visited = id ∷ v.visited }))
              (rw (h, k, l) at e) in
          inr (h, t, l, u, a, ground arith)
    ]
  ]
]

pub visit-Keeps :
    (fuel : ℕ) (g : Dict MissionTask) (s : Visit) (id : String) (s' : Visit)
    → visit fuel g s id ≡ ok s'
    → Keeps g s s' × (has s'.visited id ≡ true)
unfolding visit
visit-Keeps zero g s id s' e = cc
visit-Keeps (suc fuel) g s id s' e = elim (visit-cases fuel g s id s' e) [
  | inl (k, same) ↦
      (subst (λ u. Keeps g s u) same (Keeps-refl g s), subst (λ u. has u.visited id ≡ true) same k)
  | inr (h, t, l, u, a, b) ↦
      let inner = fold-Keeps g (visit fuel g) (visit-Keeps fuel g) _ t.depends_on u a in
      subst (λ (v : Visit). Keeps g s v × (has v.visited id ≡ true)) (sym b)
        (
          record {
            path = ap (remove id) inner.0.path ∙ remove-cons_self id s.visiting h;
            grows = λ k m. has-cons k id u.visited (inner.0.grows k m);
            ordered = λ topo. ((t, l, inner.1), inner.0.ordered topo);
          },
          has_self id u.visited,
        )
]

-- A loop that fails does so at one of its ids, on the path that it started with.
module _ (step : Visit → String → Result MissionError Visit)
    (keeps : (s : Visit) (id : String) (s' : Visit)
      → step s id ≡ ok s'
      → s'.visiting ≡ s.visiting) where
  pub fold-err :
      (s : Visit) (ids : List String) (e : MissionError)
      → fold_result step s ids ≡ err e
      → (u : Visit) × (d : String) × (u.visiting ≡ s.visiting)
        × (has ids d ≡ true)
        × (step u d ≡ err e)
  fold-err s [] e h = absurd (cc)
  fold-err s (id ∷ ids) e h = elim (Result-cases (step s id)) [
    | inl (t, first) ↦
        let (u, d, p, m, last) = fold-err t ids e (rw first at h) in
        (u, d, p ∙ keeps s id t first, has-cons d id ids m, last)
    | inr (e', first) ↦ (s, id, refl, has_self id ids, ground arith)
  ]

-- The ways in which a visit fails.
pub visit-err :
    (fuel : ℕ) (g : Dict MissionTask) (s : Visit) (id : String) (e : MissionError)
    → visit (suc fuel) g s id ≡ err e
    → ((has s.visiting id ≡ true) × (e ≡ task_cycle))
      ⊎ ((lookup id g ≡ none) × (e ≡ unknown_task id))
      ⊎ ((has s.visiting id ≡ false)
          × (t : MissionTask) × (lookup id g ≡ some t)
          × (u : Visit) × (d : String) × (u.visiting ≡ id ∷ s.visiting)
          × (has t.depends_on d ≡ true)
          × (visit fuel g u d ≡ err e))
unfolding visit
visit-err fuel g s id e h = elim (Bool-cases (has s.visiting id)) [
  | inl old ↦ inl (old, ground arith)
  | inr new ↦ elim (Bool-cases (has s.visited id)) [
    | inl done ↦ absurd (ground arith)
    | inr more ↦ elim (Option-cases (lookup id g)) [
      | inl l ↦ inr (inl (l, ground arith))
      | inr (t, l) ↦
          let failed =
            >>=-eq-err
              (fold_result (visit fuel g) (record s { visiting = id ∷ s.visiting }) t.depends_on)
              (λ v. record { visiting = remove id v.visiting; visited = id ∷ v.visited })
              (rw (new, more, l) at h) in
          let (u, d, p, m, last) =
            fold-err (visit fuel g) (λ s id s' k. (visit-Keeps fuel g s id s' k).0.path) _
              t.depends_on e failed in
          inr (inr (new, t, l, u, d, p, m, last))
    ]
  ]
]
