-- ===== src/Credentials/Policies.antt =====
-- OPC_UA/CustomClient.cpp: the security policies of the client's configuration.
use hardware_monitor.Prelude.{
  ℕ_discrete, ap, false, refl, true, ◌↔◌, Bool, Bytes, List, Option, Option-cases, [], arith,
  if◌then◌else◌, inl, inr, list_eq, nat_eq, none, not, set, some, suc, zero, ℕ, ◌++◌, ◌==◌, ◌∷◌,
  ◌≡◌,
}
use hardware_monitor.Device.{sensor_type_eq}

-- UA_SecurityPolicy as Basic256Sha256 fills it in from a certificate and a key.
pub record SecurityPolicy : Type 0 where
  pub local_certificate : Bytes
  pub local_private_key : Bytes

-- securityPolicies and securityPoliciesSize. The slots of the array are `none` where nothing is filled
-- in; the array itself is `none` where the pointer is null.
pub record ClientConfig : Type 0 where
  pub security_policies : Option (List (Option SecurityPolicy))
  pub security_policies_size : ℕ

pub data StatusCode : Type 0 where
  status_good status_bad_out_of_memory : StatusCode
  status_bad : ℕ → StatusCode

abbrev pub slots_of : Option (List (Option SecurityPolicy)) → List (Option SecurityPolicy)
slots_of none = []
slots_of (some slots) = slots

-- UA_realloc to `n` slots: the first ones are kept, and new ones are not filled in.
unfoldable pub realloc : (n : ℕ) → List (Option SecurityPolicy) → List (Option SecurityPolicy)
realloc zero slots = []
realloc (suc n) [] = none ∷ realloc n []
realloc (suc n) (slot ∷ slots) = slot ∷ realloc n slots

-- What a pointer to a byte string, which may be null, stands for: UA_BYTESTRING_NULL then.
abbrev pub local_of : Option Bytes → Bytes
local_of none = []
local_of (some parsed) = parsed

-- UA_ClientConfig_addSecurityPolicyBasic256Sha256. `has_memory` is whether UA_realloc succeeds, and
-- `fill` what UA_SecurityPolicy_Basic256Sha256 returns: `none` is good.
unfoldable pub add_security_policy :
    (has_memory : Bool) (fill : Bytes → Bytes → Option ℕ)
    → (certificate private_key : Option Bytes) → ClientConfig
    → StatusCode × ClientConfig
unfolding realloc
add_security_policy has_memory fill certificate private_key config =
    let size = config.security_policies_size in
    let slots = realloc (suc size) (slots_of config.security_policies) in
    if not has_memory
    then (status_bad_out_of_memory, config)
    else elim (fill (local_of certificate) (local_of private_key)) [
      | some code ↦ (
        status_bad code,
        record config { security_policies = if size == 0 then none else some slots },
      )
      | none ↦ (
        status_good,
        record {
          security_policies = some (
              set slots size (
                some (record {
                  local_certificate = local_of certificate;
                  local_private_key = local_of private_key;
                })));
          security_policies_size = suc size;
        },
      )
    ]

-- `for (i < securityPoliciesSize)`: the policies in use, `none` where a slot in use is missing or not
-- filled in.
unfoldable pub policies_in_use :
    (size : ℕ) → List (Option SecurityPolicy) → Option (List SecurityPolicy)
policies_in_use zero slots = some []
policies_in_use (suc size) [] = none
policies_in_use (suc size) (none ∷ slots) = none
policies_in_use (suc size) (some policy ∷ slots) = elim (policies_in_use size slots) [
  | none ↦ none
  | some policies ↦ some (policy ∷ policies)
]

unfoldable pub policies_of : ClientConfig → Option (List SecurityPolicy)
unfolding policies_in_use
policies_of config =
    policies_in_use config.security_policies_size (slots_of config.security_policies)

realloc_in_use :
    (size : ℕ) (slots : List (Option SecurityPolicy)) (ps : List SecurityPolicy)
    → policies_in_use size slots ≡ some ps
    → policies_in_use size (realloc (suc size) slots) ≡ some ps
unfolding policies_in_use realloc
realloc_in_use zero slots ps e = e
realloc_in_use (suc size) [] ps e = absurd (cc e)
realloc_in_use (suc size) (none ∷ slots) ps e = absurd (cc e)
realloc_in_use (suc size) (some p ∷ slots) ps e = elim (Option-cases (policies_in_use size slots)) [
  | inl missing ↦ absurd (ground (arith, missing, e))
  | inr (rest, found) ↦ ground (arith, found, e, realloc_in_use size slots rest found)
]

fill_in_use :
    (size : ℕ) (slots : List (Option SecurityPolicy)) (ps : List SecurityPolicy)
    (p : SecurityPolicy)
    → policies_in_use size slots ≡ some ps
    → policies_in_use (suc size) (set (realloc (suc size) slots) size (some p))
      ≡ some (ps ++ p ∷ [])
unfolding policies_in_use realloc
fill_in_use zero [] ps p e = let empty : [] ≡ ps = cc e in ap (λ ps. some (ps ++ p ∷ [])) empty
fill_in_use zero (slot ∷ slots) ps p e =
    let empty : [] ≡ ps = cc e in ap (λ ps. some (ps ++ p ∷ [])) empty
fill_in_use (suc size) [] ps p e = absurd (cc e)
fill_in_use (suc size) (none ∷ slots) ps p e = absurd (cc e)
fill_in_use (suc size) (some q ∷ slots) ps p e = elim (Option-cases (policies_in_use size slots)) [
  | inl missing ↦ absurd (ground (arith, missing, e))
  | inr (rest, found) ↦
      let shape : q ∷ rest ≡ ps = ground (arith, found, e) in
      rw (fill_in_use size slots rest p found) (ap (λ ps. some (ps ++ p ∷ [])) shape)
]

kept_in_use :
    (size : ℕ) (slots : List (Option SecurityPolicy)) (ps : List SecurityPolicy)
    → policies_in_use size slots ≡ some ps
    → policies_in_use size (slots_of (if size == 0 then none else some (realloc (suc size) slots)))
      ≡ some ps
unfolding policies_in_use ℕ_discrete
kept_in_use zero slots ps e = e
kept_in_use (suc size) slots ps e =
    let in_use : (suc size == 0) ≡ false = ground arith in
    rw in_use (realloc_in_use (suc size) slots ps e)

cleared_iff :
    (size : ℕ) (slots : List (Option SecurityPolicy))
    → (◌≡◌ {A = Option (List (Option SecurityPolicy))}
        (if size == 0 then none else some slots)
        none)
      ↔ (size ≡ 0)
cleared_iff size slots = ground arith

-- What a call of addSecurityPolicy does to the policies in use.
abbrev pub Adds :
    ClientConfig → StatusCode × ClientConfig → List SecurityPolicy → SecurityPolicy → Type 0
Adds config (status_good, after) policies new =
    (policies_of after ≡ some (policies ++ new ∷ []))
    × (after.security_policies_size ≡ suc config.security_policies_size)
Adds config (status_bad_out_of_memory, after) policies new = after ≡ config
Adds config (status_bad code, after) policies new =
    (policies_of after ≡ some policies)
    × (after.security_policies_size ≡ config.security_policies_size)
    × ((after.security_policies ≡ none) ↔ (config.security_policies_size ≡ 0))

-- Adding the policy puts it behind those in use, or, where it fails, leaves those in use as they are:
-- without memory nothing changes, and where the policy cannot be filled in, the array is freed and
-- its pointer cleared exactly if no policy was in use. The slots in use are filled in before.
pub add_security_policy-Adds :
    (has_memory : Bool) (fill : Bytes → Bytes → Option ℕ) (certificate private_key : Option Bytes)
    (config : ClientConfig) (policies : List SecurityPolicy)
    → policies_of config ≡ some policies
    → Adds config
        (add_security_policy has_memory fill certificate private_key config)
        policies
        (record {
          local_certificate = local_of certificate;
          local_private_key = local_of private_key;
        })
unfolding add_security_policy policies_of
add_security_policy-Adds false fill certificate private_key config policies e = refl
add_security_policy-Adds true fill certificate private_key config policies e =
    elim (Option-cases (fill (local_of certificate) (local_of private_key))) [
      | inl good ↦
          rw (add_security_policy, good)
            (
              fill_in_use config.security_policies_size (slots_of config.security_policies) policies
                  _ e,
              refl,
            )
      | inr (code, failed) ↦
          rw (add_security_policy, failed)
            (
              kept_in_use config.security_policies_size (slots_of config.security_policies) policies
                  e,
              refl,
              cleared_iff config.security_policies_size
                  (realloc (suc config.security_policies_size) (slots_of config.security_policies)),
            )
    ]
