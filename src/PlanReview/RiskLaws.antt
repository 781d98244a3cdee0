-- ===== src/PlanReview/RiskLaws.antt =====
-- What raises the risk of a plan: more tasks never lower it, and a destructive task makes it critical.
use mcp_software_factory.Prelude.{
  ℕ, ◌≤◌, min, ◌≡◌, refl, sym, subst, Bool, true, false, ◌||◌, List, [], ◌∷◌, ◌++◌, String, leb,
  length, length-append, contains, occurs_in, if◌then◌else◌, arith,
}
use mcp_software_factory.PlanReview.Members.{
  contains-append_left, contains-append_right, contains-dedup, length-keep_mono,
}
use mcp_software_factory.PlanReview.Risk.{
  PlanTask, Area, area_eq, Reason, reason_eq, destructive_operation, sensitive_credential_change,
  task_text, impact_for_task, Scored, first_score, with_files, raise_if, names_secret,
  is_destructive, with_areas, with_dangers, score_task,
}
use mcp_software_factory.PlanReview.Analysis.{
  SensitiveTask, Findings, no_findings, all_areas, sorted_areas, task_risk, find_in, collect,
  breadth_modifier, total_score, analyze_plan_risk,
}

raise_keeps : (b : Bool) (least : ℕ) (r : Reason) (s : Scored) → s.0 ≤ (raise_if b least r s).0
raise_keeps true least r s = omega arith
raise_keeps false least r s = omega arith

raise_reaches :
    (b : Bool) (least : ℕ) (r : Reason) (s : Scored)
    → b ≡ true
    → (least ≤ (raise_if b least r s).0) × (contains r (raise_if b least r s).1 ≡ true)
raise_reaches true least r s h = (omega arith, contains-append_right r s.1 (r ∷ []) (self r))
  where
    self : (r : Reason) → contains r (r ∷ []) ≡ true
    self r = ground (arith, reason_eq.same_iff r r)
raise_reaches false least r s h = absurd (ground (arith, h))

raise_reasons :
    (b : Bool) (least : ℕ) (q r : Reason) (s : Scored)
    → contains q s.1 ≡ true
    → contains q (raise_if b least r s).1 ≡ true
raise_reasons true least q r s h = contains-append_left q s.1 (r ∷ []) h
raise_reasons false least q r s h = h

destructive_dangers :
    (text : String) (s : Scored)
    → is_destructive text ≡ true
    → (65 ≤ (with_dangers text s).0)
      × (contains destructive_operation (with_dangers text s).1 ≡ true)
destructive_dangers text s h =
    let least : ℕ =
      if occurs_in "data" text || occurs_in "schema" text || names_secret text then 80 else 65 in
    let raised : Scored = raise_if (is_destructive text) least destructive_operation s in
    let hit = raise_reaches (is_destructive text) least destructive_operation s h in
    (
      omega (
        arith,
        enough (occurs_in "data" text || occurs_in "schema" text || names_secret text),
        hit.0,
        raise_keeps (names_secret text) 80 sensitive_credential_change raised,
      ),
      raise_reasons (names_secret text) 80 destructive_operation sensitive_credential_change raised
          hit.1,
    )
  where
    enough : (b : Bool) → 65 ≤ (if b then 80 else 65)
    enough true = omega arith
    enough false = omega arith

-- A destructive task, or one that names a secret, scores so much.
pub destructive_scores :
    (text : String) (impacts : List Area)
    → is_destructive text ≡ true
    → (65 ≤ (score_task text impacts).0)
      × (contains destructive_operation (score_task text impacts).1 ≡ true)
unfolding score_task
destructive_scores text impacts h =
    let s : Scored = with_areas text impacts (with_files text (first_score impacts)) in
    let danger = destructive_dangers text s h in
    (
      capped (with_dangers text s).0 danger.0,
      contains-dedup destructive_operation (with_dangers text s).1 danger.1,
    )
  where
    capped : (n : ℕ) → 65 ≤ n → 65 ≤ min n 100
    capped n h = omega (arith, h)

pub secret_scores :
    (text : String) (impacts : List Area)
    → names_secret text ≡ true
    → 80 ≤ (score_task text impacts).0
unfolding score_task
secret_scores text impacts h =
    capped (with_dangers text (with_areas text impacts (with_files text (first_score impacts)))).0
      (raise_reaches (names_secret text) 80 sensitive_credential_change _ h).0
  where
    capped : (n : ℕ) → 80 ≤ n → 80 ≤ min n 100
    capped n h = omega (arith, h)

-- Findings that are at least others.
abbrev pub Grows : Findings → Findings → Type 0
Grows f g =
    (f.base ≤ g.base)
    × (f.target_count ≤ g.target_count)
    × (length f.sensitive_tasks ≤ length g.sensitive_tasks)
    × ((r : Reason) → contains r f.reasons ≡ true → contains r g.reasons ≡ true)
    × ((a : Area) → contains a f.areas ≡ true → contains a g.areas ≡ true)

Grows-trans : (f g h : Findings) → Grows f g → Grows g h → Grows f h
Grows-trans f g h (a, b, c, d, e) (a', b', c', d', e') = (
  omega (arith, a, a'),
  omega (arith, b, b'),
  omega (arith, c, c'),
  (λ r k. d' r (d r k)),
  (λ r k. e' r (e r k)),
)

module _ (paths : String → List String) where
  pub find_in-Grows : (t : PlanTask) (f : Findings) → Grows f (find_in paths t f)
  unfolding score_task impact_for_task
  find_in-Grows t f = (
    omega arith,
    omega arith,
    longer (leb 50 (task_risk paths t).0) _,
    (λ r k. contains-append_left r f.reasons (task_risk paths t).1 k),
    (λ a k.
        contains-append_right a (impact_for_task (task_text t) (paths (task_text t))) f.areas k),
  )
    where
      longer :
          (b : Bool) (x : SensitiveTask)
          → length f.sensitive_tasks
            ≤ length (if b then f.sensitive_tasks ++ x ∷ [] else f.sensitive_tasks)
      longer true x = omega (arith, length-append f.sensitive_tasks (x ∷ []))
      longer false x = omega arith

  pub collect-Grows : (ts : List PlanTask) (f : Findings) → Grows f (collect paths ts f)
  unfolding collect
  collect-Grows [] f = (omega arith, omega arith, omega arith, (λ r k. k), (λ a k. k))
  collect-Grows (t ∷ ts) f =
      Grows-trans f (find_in paths t f) (collect paths (t ∷ ts) f) (find_in-Grows t f)
        (collect-Grows ts (find_in paths t f))

  pub collect-append :
      (ts us : List PlanTask) (f : Findings)
      → collect paths (ts ++ us) f ≡ collect paths us (collect paths ts f)
  unfolding collect
  collect-append [] us f = refl
  collect-append (t ∷ ts) us f = collect-append ts us (find_in paths t f)

  breadth_mono : (m n b c : ℕ) → m ≤ n → b ≤ c → breadth_modifier m b ≤ breadth_modifier n c
  breadth_mono m n b c h k = ground arith

  total_mono : (f g : Findings) → Grows f g → total_score f ≤ total_score g
  total_mono f g (a, b, c, d, e) =
      let areas =
        length-keep_mono (λ x. contains x f.areas) (λ x. contains x g.areas) all_areas e in
      let breadth =
        breadth_mono f.target_count g.target_count (length (sorted_areas f.areas))
          (length (sorted_areas g.areas)) b areas in
      omega (
        arith,
        a,
        breadth,
        flag (contains destructive_operation f.reasons) (contains destructive_operation g.reasons)
            (d destructive_operation),
        volume (length f.sensitive_tasks) (length g.sensitive_tasks) c,
      )
    where
      flag : (b c : Bool) → (b ≡ true → c ≡ true) → (if b then 10 else 0) ≤ (if c then 10 else 0)
      flag true true h = omega arith
      flag true false h = absurd (ground (arith, h refl))
      flag false true h = omega arith
      flag false false h = omega arith

      volume : (m n : ℕ) → m ≤ n → (if leb 5 m then 10 else 0) ≤ (if leb 5 n then 10 else 0)
      volume m n h = ground arith

  -- Tasks that are added to a plan never lower its risk.
  pub analyze_plan_risk_grows :
      (ts us : List PlanTask)
      → (analyze_plan_risk paths ts).risk_score ≤ (analyze_plan_risk paths (ts ++ us)).risk_score
  unfolding analyze_plan_risk
  analyze_plan_risk_grows ts us =
      subst (λ (g : Findings). total_score (collect paths ts no_findings) ≤ total_score g)
        (sym (collect-append ts us no_findings))
        (total_mono (collect paths ts no_findings) (collect paths us (collect paths ts no_findings))
          (collect-Grows us (collect paths ts no_findings)))
