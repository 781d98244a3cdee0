-- ===== src/PlanReview/Members.antt =====
-- Membership in joined lists, and in lists without repeats.
use mcp_software_factory.Prelude.{
  ◌≤◌, ◌≡◌, refl, subst, Bool-cases, inl, inr, Bool, true, false, List, [], ◌∷◌, ◌++◌, Eq, ◌==◌,
  contains, dedup_from, dedup, keep, length, arith,
}

module _ {A : Type 0} ⦃e : Eq A⦄ where
  pub contains-append_left :
      (a : A) (xs ys : List A) → contains a xs ≡ true → contains a (xs ++ ys) ≡ true
  contains-append_left a [] ys h = absurd (ground (arith, h))
  contains-append_left a (x ∷ xs) ys h = ground (arith, h, contains-append_left a xs ys)

  pub contains-append_right :
      (a : A) (xs ys : List A) → contains a ys ≡ true → contains a (xs ++ ys) ≡ true
  contains-append_right a [] ys h = h
  contains-append_right a (x ∷ xs) ys h = ground (arith, contains-append_right a xs ys h)

  -- What was seen before, or stands in the list, is in the one or the other.
  contains-dedup_from :
      (a : A) (seen xs : List A)
      → contains a xs ≡ true
      → contains a seen ≡ false
      → contains a (dedup_from seen xs) ≡ true
  contains-dedup_from a seen [] h k = absurd (ground (arith, h))
  contains-dedup_from a seen (x ∷ xs) h k = elim (Bool-cases (a == x)) [
    | inl same ↦
        ground (arith, same, subst (λ (y : A). contains y seen ≡ false) ((e.same_iff a x).0 same) k)
    | inr other ↦
        let rest : contains a xs ≡ true = ground (arith, h, other) in
        let not_seen : contains a (x ∷ seen) ≡ false = ground (arith, other, k) in
        ground (
          arith,
          contains-dedup_from a seen xs rest k,
          contains-dedup_from a (x ∷ seen) xs rest not_seen,
        )
  ]

  pub contains-dedup : (a : A) (xs : List A) → contains a xs ≡ true → contains a (dedup xs) ≡ true
  contains-dedup a xs h = contains-dedup_from a [] xs h refl

  -- More is kept by a weaker test.
  pub length-keep_mono :
      (p q : A → Bool) (xs : List A)
      → ((a : A) → p a ≡ true → q a ≡ true)
      → length (keep p xs) ≤ length (keep q xs)
  length-keep_mono p q [] h = omega arith
  length-keep_mono p q (x ∷ xs) h = step (p x) (q x) (h x) (length-keep_mono p q xs h)
    where
      step :
          (b c : Bool)
          → (b ≡ true → c ≡ true)
          → length (keep p xs) ≤ length (keep q xs)
          → length (elim b as (λ d. List A) [ true ↦ x ∷ keep p xs | false ↦ keep p xs ])
            ≤ length (elim c as (λ d. List A) [ true ↦ x ∷ keep q xs | false ↦ keep q xs ])
      step true true k l = omega (arith, l)
      step true false k l = absurd (ground (arith, k refl))
      step false true k l = omega (arith, l)
      step false false k l = l
