-- ===== src/Witnesses/Slotting.antt =====
-- Runs of the classes of products and of the compatibility rules of a location.
use awmsom.Base.{
  ℕ, ◌≡◌, refl, ◌*◌, ◌≤◌, ◌&&◌, Bool, true, false, if◌then◌else◌, Option, none, some, List, [], ◌∷◌,
  pos, negsuc, map, any,
}
use awmsom.Slotting.Abc.{class_a, class_b, class_c, sum_entries, calculate_abc}
use awmsom.Slotting.Abc.Laws.{number, consumed_up_to, IsRanked, calculate_abc_lem}
use awmsom.Slotting.Compatibility.{
  CompatibilityType, allow, block, LocationCompatibilityRule, ProductKey, concerns, is_block,
  is_allow, at_location, evaluate_compatibility,
}
use awmsom.Slotting.Compatibility.Laws.{evaluate_compatibility_lem}

abbrev consumptions : List (ℕ × ℕ)
consumptions = (4, 50000) ∷ (5, 700000) ∷ (6, 200000) ∷ (7, 50000) ∷ []

calculate_abc_test :
    calculate_abc consumptions
    ≡ ((5, 700000), class_a)
      ∷ ((6, 200000), class_b)
      ∷ ((4, 50000), class_b)
      ∷ ((7, 50000), class_c)
      ∷ []
unfolding calculate_abc
calculate_abc_test = refl

calculate_abc_example :
    let classes = calculate_abc consumptions in
    ((p : ℕ × ℕ → Bool) → number p (map (λ y. y.0) classes) ≡ number p consumptions)
    × IsRanked classes
    × (consumed_up_to 0 classes * 100 ≤ sum_entries consumptions * 80)
    × (consumed_up_to 1 classes * 100 ≤ sum_entries consumptions * 95)
calculate_abc_example = calculate_abc_lem consumptions

abbrev rule : ℕ → Option ℕ → CompatibilityType → LocationCompatibilityRule
rule location product type = record {
  location_id = location;
  product_class = none;
  product_id = product;
  rule_type = type;
}

abbrev product : ProductKey
product = record { id = 5; product_class = some 9 }

abbrev rules : List LocationCompatibilityRule
rules = rule 1 none allow ∷ rule 1 (some 6) block ∷ rule 2 (some 5) block ∷ []

evaluate_compatibility_test : evaluate_compatibility product 1 rules ≡ (true, pos 15)
unfolding evaluate_compatibility
evaluate_compatibility_test = refl

evaluate_compatibility_example : evaluate_compatibility product 2 rules ≡ (
    if any (λ r. at_location 2 r && (is_block r && concerns product r)) rules
    then (false, negsuc 49)
    else (
      true,
      if any (λ r. at_location 2 r && (is_allow r && concerns product r)) rules
          then pos 15
          else pos 0,
    ))
evaluate_compatibility_example = evaluate_compatibility_lem product 2 rules
