-- ===== src/Slotting/Compatibility/Laws.antt =====
-- What evaluateCompatibility decides, whatever the order of the rules.
use awmsom.Base.{
  ℕ, ◌≡◌, refl, ◌∙◌, ◌&&◌, ◌||◌, inl, inr, Bool, true, false, if◌then◌else◌, List, [], ◌∷◌, pos,
  negsuc, keep, any, Bool-cases,
}
use awmsom.Slotting.Compatibility.{
  LocationCompatibilityRule, ProductKey, concerns, is_block, is_allow, check_rules, at_location,
  check_applicable, evaluate_compatibility,
}

abbrev blocks : ProductKey → LocationCompatibilityRule → Bool
blocks product rule = is_block rule && concerns product rule

abbrev allows : ProductKey → LocationCompatibilityRule → Bool
allows product rule = is_allow rule && concerns product rule

||_assoc : (a b c : Bool) → ((a || b) || c) ≡ (a || (b || c))
||_assoc true b c = refl
||_assoc false b c = refl

check_rules_lem :
    (product : ProductKey) (rules : List LocationCompatibilityRule) (found : Bool)
    → check_rules product rules found ≡ (
        if any (blocks product) rules
        then (false, negsuc 49)
        else (true, if found || any (allows product) rules then pos 15 else pos 0))
check_rules_lem product [] true = refl
check_rules_lem product [] false = refl
check_rules_lem product (r ∷ rs) found =
    let ih = check_rules_lem product rs (found || allows product r) in
    elim (Bool-cases (blocks product r)) [
      | inl h ↦ rw h refl
      | inr h ↦ rw (h, ih, ||_assoc found (allows product r) (any (allows product) rs)) refl
    ]

check_applicable_lem :
    (product : ProductKey) (rules : List LocationCompatibilityRule)
    → check_applicable product rules ≡ check_rules product rules false
check_applicable_lem product [] = refl
check_applicable_lem product (r ∷ rs) = refl

any-keep {ℓ} :
    {A : Type ℓ} (p q : A → Bool) (xs : List A) → any p (keep q xs) ≡ any (λ x. q x && p x) xs
any-keep p q [] = refl
any-keep p q (x ∷ xs) = elim (Bool-cases (q x)) [
  | inl h ↦ rw (h, any-keep p q xs) refl
  | inr h ↦ rw (h, any-keep p q xs) refl
]

-- Whatever the order of the rules: a product is refused at a location, with a malus of 5, exactly if
-- some rule of the location blocks it, and else it is allowed, with a bonus of 1.5 if some rule of the
-- location allows it and of 0 if none does. A rule is about a product if it names the product or its
-- class, or neither a product nor a class.
pub evaluate_compatibility_lem :
    (product : ProductKey) (location : ℕ) (rules : List LocationCompatibilityRule)
    → evaluate_compatibility product location rules ≡ (
        if any (λ r. at_location location r && (is_block r && concerns product r)) rules
        then (false, negsuc 49)
        else (
          true,
          if any (λ r. at_location location r && (is_allow r && concerns product r)) rules
              then pos 15
              else pos 0,
        ))
unfolding evaluate_compatibility
evaluate_compatibility_lem product location rules =
    let here = keep (at_location location) rules in
    check_applicable_lem product here
    ∙ check_rules_lem product here false
    ∙ rw (any-keep (blocks product) (at_location location) rules)
        (rw (any-keep (allows product) (at_location location) rules) refl)
