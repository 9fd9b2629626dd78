-- ===== src/Matches/Balance.antt =====
-- internal/item/proxy.go and internal/menu/proxy.go: how often each rule was added and removed.
use sysc_tray.Prelude.{
  ℕ, ◌+◌, ◌≡◌, refl, arith, Bool, true, false, ◌&&◌, List, [], ◌∷◌, ◌++◌, if◌then◌else◌, Bool-cases,
  inl, inr, ◌⊎◌, Text, text_eq_refl,
}
use sysc_tray.Matches.{
  Rule, owner_rule, Asked, adds, removes, no_subscription, remove_matches, watch, subscribe,
  unsubscribe, rule_eq,
}

unfoldable pub weight : Bool → ℕ
weight true = 1
weight false = 0

-- How often the rule was granted.
unfoldable pub added_times : Rule → List Asked → ℕ
unfolding weight
added_times q [] = 0
added_times q (adds r granted ∷ xs) = weight (granted && rule_eq r q) + added_times q xs
added_times q (removes r ∷ xs) = added_times q xs

-- How often it was taken back.
unfoldable pub removed_times : Rule → List Asked → ℕ
unfolding weight
removed_times q [] = 0
removed_times q (adds r granted ∷ xs) = removed_times q xs
removed_times q (removes r ∷ xs) = weight (rule_eq r q) + removed_times q xs

-- How often it stands in a list of rules.
unfoldable pub times : Rule → List Rule → ℕ
unfolding weight
times q [] = 0
times q (r ∷ rs) = weight (rule_eq r q) + times q rs

pub added-append :
    (q : Rule) (xs ys : List Asked) → added_times q (xs ++ ys) ≡ added_times q xs + added_times q ys
unfolding added_times
added-append q [] ys = omega arith
added-append q (adds r g ∷ xs) ys = omega (arith, added-append q xs ys)
added-append q (removes r ∷ xs) ys = added-append q xs ys

pub removed-append :
    (q : Rule) (xs ys : List Asked)
    → removed_times q (xs ++ ys) ≡ removed_times q xs + removed_times q ys
unfolding removed_times
removed-append q [] ys = omega arith
removed-append q (adds r g ∷ xs) ys = removed-append q xs ys
removed-append q (removes r ∷ xs) ys = omega (arith, removed-append q xs ys)

removal_times :
    (q : Rule) (rules : List Rule)
    → (added_times q (remove_matches rules) ≡ 0)
      × (removed_times q (remove_matches rules) ≡ times q rules)
unfolding remove_matches added_times removed_times times
removal_times q [] = (refl, refl)
removal_times q (r ∷ rules) = ground (arith, removal_times q rules)

-- The rules that were granted before the first that was not.
pub granted_first : (Rule → Bool) → List Rule → List Rule
granted_first grants [] = []
granted_first grants (r ∷ rs) =
    let rest = granted_first grants rs in if grants r then r ∷ rest else []

watch-times :
    (q : Rule) (all rules : List Rule) (grants : Rule → Bool)
    → let (asked, done) = watch all rules grants in
      (added_times q asked ≡ times q (granted_first grants rules))
      × (removed_times q asked ≡ (if done then 0 else times q all))
      × (done ≡ true → added_times q asked ≡ times q rules)
unfolding watch added_times removed_times times granted_first weight
watch-times q all [] grants = (refl, refl, λ h. refl)
watch-times q all (r ∷ rules) grants = elim (Bool-cases (grants r)) [
  | inl granted ↦ ground (arith, watch-times q all rules grants)
  | inr refused ↦ ground (arith, removal_times q all)
]

-- A subscription that asked for nothing yet: when its start succeeds, it and the close after it take each
-- rule back as often as it was granted; when it fails, each rule is granted as often as it stands before
-- the first refusal, and taken back as often as it stands in all, and a close asks for nothing more.
pub subscribe-times :
    (q : Rule) (rules : List Rule) (grants : Rule → Bool)
    → let (s, started) = subscribe rules grants no_subscription in
      let asked = (unsubscribe rules s).asked in
      ((started ≡ true)
        × (added_times q asked ≡ removed_times q asked)
        × (added_times q asked ≡ times q rules))
      ⊎ ((started ≡ false)
          × (added_times q asked ≡ times q (granted_first grants rules))
          × (removed_times q asked ≡ times q rules))
unfolding subscribe unsubscribe
subscribe-times q rules grants =
    let w = watch rules rules grants in
    elim (Bool-cases w.1) [
      | inl all ↦ inl (
          ground (
            arith,
            watch-times q rules rules grants,
            removal_times q rules,
            added-append q w.0 (remove_matches rules),
            removed-append q w.0 (remove_matches rules),
          ))
      | inr less ↦ inr (ground (arith, watch-times q rules rules grants))
    ]

-- A close in front of the start: what the start then asks for is never taken back, and the channel of
-- signals stays registered, however often it is closed again.
pub late_subscribe :
    (q : Rule) (rules : List Rule) (grants : Rule → Bool)
    → let (s, started) = subscribe rules grants (unsubscribe rules no_subscription) in
      started ≡ true
      → (unsubscribe rules s ≡ s)
        × (s.signals ≡ true)
        × (added_times q s.asked ≡ times q rules)
        × (removed_times q s.asked ≡ 0)
unfolding subscribe unsubscribe
late_subscribe q rules grants h = ground (arith, watch-times q rules rules grants)

rule_eq_refl : (r : Rule) → rule_eq r r ≡ true
unfolding rule_eq
rule_eq_refl r = ground (
  arith,
  text_eq_refl r.sender,
  text_eq_refl r.path,
  text_eq_refl r.interface,
  text_eq_refl r.member,
  text_eq_refl r.argument,
)

-- The rules of a reader: one of its own, and the one for the departure of its owner, which every reader of
-- an item of that owner has. A start whose own rule is refused takes the shared one back without having added it.
pub refused_times :
    (own : Rule) (owner : Text) (grants : Rule → Bool)
    → rule_eq own (owner_rule owner) ≡ false
    → grants own ≡ false
    → let rules = own ∷ owner_rule owner ∷ [] in
      let asked = (unsubscribe rules (subscribe rules grants no_subscription).0).asked in
      (added_times (owner_rule owner) asked ≡ 0)
      × (removed_times (owner_rule owner) asked ≡ 1)
      × (times (owner_rule owner) rules ≡ 1)
unfolding subscribe unsubscribe watch added_times removed_times times weight remove_matches
refused_times own owner grants apart refused = ground (arith, rule_eq_refl (owner_rule owner))
