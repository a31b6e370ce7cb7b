-- ===== src/Service/Policy/Missing.antt =====
-- Which approvals the policy step reports as missing (internal/service_test_steps.go).
use mathlib.Core.List.{Memᴰ}
use mathlib.Core.List.Memᴰ.{head, tail}
use workflow_plugin_signal.Base.{
  ◌≡◌, ◌≢◌, Bool, refl, sym, ap, ◌∙◌, ◌↔◌, inl, inr, true, false, List, [], ◌∷◌, ◌++◌, arith, Str,
  is_empty, is_empty-false, Bool-cases, mem-left, mem-right, append-mem, mem_cases,
}
use workflow_plugin_signal.Service.Policy.{
  Policies, PolicyInput, non_empty_strings, merge_non_empty_strings, missing_approvals,
  execute_service_policy_check,
}

named_mem : (s : Str) (ts : List Str) → s ≢ [] → Memᴰ s ts → Memᴰ s (non_empty_strings ts)
unfolding non_empty_strings
named_mem s [] named i = elim i [ ]
named_mem s (t ∷ ts) named (head e) = rw (is_empty-false (λ f. named (e ∙ f))) (head e)
named_mem s (t ∷ ts) named (tail i) = elim (Bool-cases (is_empty t)) [
  | inl empty ↦ rw empty (named_mem s ts named i)
  | inr full ↦ rw full (tail (named_mem s ts named i))
]

mem_named : (s : Str) (ts : List Str) → Memᴰ s (non_empty_strings ts) → Memᴰ s ts × (s ≢ [])
unfolding non_empty_strings
mem_named s [] i = elim i [ ]
mem_named s (t ∷ ts) i = elim (Bool-cases (is_empty t)) [
  | inl empty ↦ let (j, named) = mem_named s ts (rw empty at i) in (tail j, named)
  | inr full ↦ elim (mem_cases s t (non_empty_strings ts) (rw full at i)) [
    | inl e ↦ (head e, λ f. absurd (ground arith))
    | inr later ↦ let (j, named) = mem_named s ts later in (tail j, named)
  ]
]

-- An approval that is missing is required and not among those given.
missing-mem :
    (a : Str) (required : List Str) (given : Str → Bool)
    → Memᴰ a (missing_approvals required given)
    → Memᴰ a required × (given a ≡ false)
unfolding missing_approvals
missing-mem a [] given i = elim i [ ]
missing-mem a (r ∷ required) given i = elim (Bool-cases (given r)) [
  | inl held ↦ let (j, absent) = missing-mem a required given (rw held at i) in (tail j, absent)
  | inr absent_r ↦ elim (mem_cases a r (missing_approvals required given) (rw absent_r at i)) [
    | inl e ↦ (head e, rw e absent_r)
    | inr later ↦ let (j, absent) = missing-mem a required given later in (tail j, absent)
  ]
]

mem-missing :
    (a : Str) (required : List Str) (given : Str → Bool)
    → Memᴰ a required
    → given a ≡ false
    → Memᴰ a (missing_approvals required given)
unfolding missing_approvals
mem-missing a [] given i absent = elim i [ ]
mem-missing a (r ∷ required) given (head e) absent =
    let same : given r ≡ false = ap given (sym e) ∙ absent in rw same (head e)
mem-missing a (r ∷ required) given (tail i) absent = elim (Bool-cases (given r)) [
  | inl held ↦ rw held (mem-missing a required given i absent)
  | inr absent_r ↦ rw absent_r (tail (mem-missing a required given i absent))
]

given_mem :
    (a : Str) (config input : List Str)
    → a ≢ []
    → Memᴰ a (config ++ input)
    → Memᴰ a (merge_non_empty_strings config input)
unfolding merge_non_empty_strings
given_mem a config input named i = elim (append-mem a config input i) [
  | inl of_config ↦ mem-left a _ _ (named_mem a config named of_config)
  | inr of_input ↦ mem-right a (non_empty_strings config) _ (named_mem a input named of_input)
]

mem_given :
    (a : Str) (config input : List Str)
    → Memᴰ a (merge_non_empty_strings config input)
    → Memᴰ a (config ++ input) × (a ≢ [])
unfolding merge_non_empty_strings
mem_given a config input i = elim (append-mem a (non_empty_strings config) _ i) [
  | inl of_config ↦
      let (j, named) = mem_named a config of_config in (mem-left a config input j, named)
  | inr of_input ↦
      let (j, named) = mem_named a input of_input in (mem-right a config input j, named)
]

-- A policy check gives the set of live approvals exactly the names, other than the empty one, of its
-- configuration and its input, reports as missing exactly the required approvals that the set then
-- lacks, and always says that the live service is disabled.
pub execute_service_policy_check-missing :
    (p : Policies) (config input : PolicyInput) (a : Str)
    → (given : List Str) × ((b : Str)
        → Memᴰ b given ↔ (Memᴰ b (config.approvals ++ input.approvals) × (b ≢ [])))
      × (Memᴰ a (execute_service_policy_check p config input).missing_approvals
          ↔ (Memᴰ a p.required_live_approvals × (p.new_live_approval_set given a ≡ false)))
      × ((execute_service_policy_check p config input).live_service_disabled ≡ true)
unfolding execute_service_policy_check
execute_service_policy_check-missing p config input a =
    let given = merge_non_empty_strings config.approvals input.approvals in
    (
      given,
      λ b. (
        mem_given b config.approvals input.approvals,
        λ (i, named). given_mem b config.approvals input.approvals named i,
      ),
      (
        missing-mem a _ (p.new_live_approval_set given),
        λ (required, absent). mem-missing a _ (p.new_live_approval_set given) required absent,
      ),
      refl,
    )
