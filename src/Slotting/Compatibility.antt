-- ===== src/Slotting/Compatibility.antt =====
-- evaluateCompatibility: whether the rules of a location allow a product, and the bonus that they give,
-- in tenths of a point. An empty text in a rule or as the class of the product is a missing one.
pub mod Laws
use awmsom.Base.{
  ℕ, ◌==◌, ◌&&◌, ◌||◌, Bool, true, false, if◌then◌else◌, Option, none, some, List, [], ◌∷◌, ℤ, pos,
  negsuc, keep,
}

pub data CompatibilityType : Type 0 where
  allow block : CompatibilityType

pub record LocationCompatibilityRule : Type 0 where
  pub location_id : ℕ
  pub product_class : Option ℕ
  pub product_id : Option ℕ
  pub rule_type : CompatibilityType

-- The product's id and its class, `classCode || category || undefined`.
pub record ProductKey : Type 0 where
  pub id : ℕ
  pub product_class : Option ℕ

abbrev pub matches_product : LocationCompatibilityRule → ProductKey → Bool
matches_product rule product = elim rule.product_id [ none ↦ false | some p ↦ p == product.id ]

abbrev pub same_class : Option ℕ → Option ℕ → Bool
same_class none b = false
same_class (some a) none = false
same_class (some a) (some b) = a == b

abbrev pub matches_class : LocationCompatibilityRule → ProductKey → Bool
matches_class rule product = same_class rule.product_class product.product_class

-- `!rule.productId && !rule.productClass`
abbrev pub names_nothing : Option ℕ → Option ℕ → Bool
names_nothing none none = true
names_nothing none (some b) = false
names_nothing (some a) b = false

abbrev pub concerns : ProductKey → LocationCompatibilityRule → Bool
concerns product rule =
    matches_product rule product
    || (matches_class rule product || names_nothing rule.product_id rule.product_class)

abbrev pub is_block : LocationCompatibilityRule → Bool
is_block rule = elim rule.rule_type [ allow ↦ false | block ↦ true ]

abbrev pub is_allow : LocationCompatibilityRule → Bool
is_allow rule = elim rule.rule_type [ allow ↦ true | block ↦ false ]

-- The loop, with `allowedRuleFound` as it stands.
abbrev pub check_rules : ProductKey → List LocationCompatibilityRule → Bool → Bool × ℤ
check_rules product [] found = (true, if found then pos 15 else pos 0)
check_rules product (r ∷ rs) found =
    let rest = check_rules product rs (found || (is_allow r && concerns product r)) in
    if is_block r && concerns product r then (false, negsuc 49) else rest

abbrev pub at_location : ℕ → LocationCompatibilityRule → Bool
at_location location rule = rule.location_id == location

abbrev pub check_applicable : ProductKey → List LocationCompatibilityRule → Bool × ℤ
check_applicable product [] = (true, pos 0)
check_applicable product (r ∷ rs) = check_rules product (r ∷ rs) false

unfoldable pub evaluate_compatibility : ProductKey → ℕ → List LocationCompatibilityRule → Bool × ℤ
evaluate_compatibility product location rules =
    check_applicable product (keep (at_location location) rules)
