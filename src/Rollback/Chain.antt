-- ===== src/Rollback/Chain.antt =====
-- asahi_boot_chain.py: the chain's invariants, the generations that a device has, and the plan.
use sourceos_boot.Base.{
  ℕ, suc, zero, ◌+◌, ◌-◌, String, Bool, false, not, ◌||◌, Option, none, some, List, [], ◌∷◌,
  ◌++◌ as ◌++ˡ◌, str_eq, if◌then◌else◌, select, find, ltb, text_leb, ℤ, pos, negsuc, int_leb,
}
use sourceos_boot.Rollback.Sort.{sort, last}
use Prim.Native.Nat.{◌/◌, ◌%◌}
use Prim.Native.String.{◌++◌, len, slice}
use text.Mathlib.Text.{starts_with}

-- BOOT_CHAIN_TYPE
abbrev pub boot_chain_type : String
boot_chain_type = "asahi-m1n1-uboot-systemd-boot"

-- AsahiBootChainInfo
pub record AsahiBootChainInfo : Type 0 where
  pub chain_type : String
  pub m1n1_version : Option String
  pub uboot_version : Option String
  pub efi_vars_mutable : Bool

-- the issues of `validate`: one constructor for each message, with what it interpolates
pub data Violation : Type 0 where
  efi_vars_are_mutable : Violation
  unexpected_chain_type : String → Violation

-- AsahiBootChainInfo.validate
unfoldable pub validate : AsahiBootChainInfo → List Violation
validate chain =
    (if chain.efi_vars_mutable then efi_vars_are_mutable ∷ [] else [])
    ++ˡ (if str_eq chain.chain_type boot_chain_type
        then []
        else unexpected_chain_type chain.chain_type ∷ [])

-- NixOSGeneration
pub record NixOsGeneration : Type 0 where
  pub number : ℤ
  pub store_path : String
  pub is_current : Bool

-- policy_reason: one constructor for each message, with what it interpolates
pub data PolicyReason : Type 0 where
  violated : List Violation → PolicyReason
  none_detected : PolicyReason
  no_previous : PolicyReason
  rolls_back_to : Option ℤ → ℤ → PolicyReason

-- AsahiRollbackPlan, without its constant schema
pub record AsahiRollbackPlan : Type 0 where
  pub chain : AsahiBootChainInfo
  pub current_generation : Option NixOsGeneration
  pub rollback_target : Option NixOsGeneration
  pub policy_gate : String
  pub policy_reason : PolicyReason
  pub steps : List String

-- AsahiRollbackPlan.allowed
abbrev pub is_allowed : AsahiRollbackPlan → Bool
is_allowed plan = str_eq plan.policy_gate "allowed"

-- What the module reads of `os`, of `os.path` and of `int`: `none` stands for an OSError, and for
-- the ValueError of `int`.
pub record Surroundings : Type 0 where
  pub is_dir : String → Bool
  pub is_link : String → Bool
  pub real_path : String → Option String
  pub list_dir : String → Option (List String)
  pub join : String → String → String
  pub int_of : String → Option ℤ

-- AsahiBootChain
pub record AsahiBootChain : Type 0 where
  pub chain_info : AsahiBootChainInfo
  pub profiles_root : String
  pub current_link : String

-- `entry.endswith(tail)`
abbrev ends_with : String → String → Bool
ends_with entry tail = str_eq (slice entry (len entry - len tail) (len entry)) tail

-- the number of a generation link, `entry[len("system-"):-len("-link")]`
abbrev number_part : String → String
number_part entry = slice entry 7 (len entry - 5)

-- `current_path is not None and store_path == current_path`
abbrev matches : Option String → String → Bool
matches none path = false
matches (some current) path = str_eq path current

abbrev pub generation_leb : NixOsGeneration → NixOsGeneration → Bool
generation_leb a b = int_leb a.number b.number

module _ (os : Surroundings) (self : AsahiBootChain) where
  abbrev pub system_profile_dir : String
  system_profile_dir = os.join self.profiles_root "system"

  abbrev current_path : Option String
  current_path = if os.is_link self.current_link then os.real_path self.current_link else none

  -- one entry of the loop, `none` where it continues without a generation
  abbrev generation_of : String → Option NixOsGeneration
  generation_of entry =
      if not (starts_with entry "system-") || not (ends_with entry "-link")
      then none
      else (elim (os.int_of (number_part entry)) [
        | none ↦ none
        | some number ↦ elim (os.real_path (os.join system_profile_dir entry)) [
          | none ↦ none
          | some path ↦ some (record {
            number = number;
            store_path = path;
            is_current = matches current_path path;
          })
        ]
      ])

  abbrev scan : List String → List NixOsGeneration
  scan [] = []
  scan (entry ∷ entries) =
      let rest = scan entries in elim (generation_of entry) [ none ↦ rest | some g ↦ g ∷ rest ]

  -- the generations of the entries of a directory, `none` where it cannot be listed
  abbrev pub generations_of : Option (List String) → Option (List NixOsGeneration)
  generations_of none = none
  generations_of (some entries) = some (sort generation_leb (scan (sort text_leb entries)))

  -- detect_generations; `none` is the OSError of a directory that cannot be listed
  unfoldable pub detect_generations : Option (List NixOsGeneration)
  detect_generations =
      if not (os.is_dir system_profile_dir)
      then some []
      else generations_of (os.list_dir system_profile_dir)

abbrev pub rollback_command : String
rollback_command = "nixos-rebuild switch --rollback"

abbrev digit : ℕ → String
digit d = slice "0123456789" d (d + 1)

-- the decimal digits of a number; a fuel above the number is enough, since each step divides by ten
abbrev digits : ℕ → ℕ → String
digits zero n = ""
digits (suc fuel) n =
    let rest = digits fuel (n / 10) in (if ltb n 10 then "" else rest) ++ digit (n % 10)

-- `str(n)` of an integer
abbrev show_int : ℤ → String
show_int (pos n) = digits (suc n) n
show_int (negsuc n) = "-" ++ digits (suc (suc n)) (suc n)

-- `_asahi_chain` of cli.py, with the two paths that `__init__` defaults to
abbrev pub asahi_chain : AsahiBootChain
asahi_chain = record {
  chain_info = record {
    chain_type = boot_chain_type;
    m1n1_version = none;
    uboot_version = none;
    efi_vars_mutable = false;
  };
  profiles_root = "/nix/var/nix/profiles";
  current_link = "/run/current-system";
}

-- the first comment among the steps of a plan
abbrev pub target_comment : NixOsGeneration → String
target_comment target =
    "#" ++ (" rolls back to generation " ++ (show_int target.number ++ (": " ++ target.store_path)))

abbrev pub efi_comment : String
efi_comment = "# efiVarsMutable=false enforced — boot entry managed by systemd-boot, not EFI vars"

-- `current.number if current else '?'`
abbrev number_of : Option NixOsGeneration → Option ℤ
number_of none = none
number_of (some g) = some g.number

module _ (chain : AsahiBootChainInfo) where
  abbrev denied_plan : Option NixOsGeneration → PolicyReason → AsahiRollbackPlan
  denied_plan current why = record {
    chain = chain;
    current_generation = current;
    rollback_target = none;
    policy_gate = "denied";
    policy_reason = why;
    steps = [];
  }

  -- plan_rollback where generations were detected, from the current one and the target
  abbrev pub plan_towards : Option NixOsGeneration → Option NixOsGeneration → AsahiRollbackPlan
  plan_towards current none = denied_plan current no_previous
  plan_towards current (some target) = record {
    chain = chain;
    current_generation = current;
    rollback_target = some target;
    policy_gate = "allowed";
    policy_reason = rolls_back_to (number_of current) target.number;
    steps = rollback_command ∷ target_comment target ∷ efi_comment ∷ [];
  }

  -- plan_rollback for a valid chain
  unfoldable pub plan_for : List NixOsGeneration → AsahiRollbackPlan
  plan_for [] = record {
    chain = chain;
    current_generation = none;
    rollback_target = none;
    policy_gate = "allowed";
    policy_reason = none_detected;
    steps = rollback_command ∷ [];
  }
  plan_for (g ∷ gs) =
      plan_towards (find (λ h. h.is_current) (g ∷ gs))
        (last (select (λ h. not h.is_current) (g ∷ gs)))

  -- plan_rollback, from the violations of the chain and the generations that were detected
  abbrev pub plan_under : List Violation → Option (List NixOsGeneration) → Option AsahiRollbackPlan
  plan_under (v ∷ vs) detected = some (denied_plan none (violated (v ∷ vs)))
  plan_under [] none = none
  plan_under [] (some generations) = some (plan_for generations)

-- plan_rollback; `none` is the OSError that `detect_generations` lets through
unfoldable pub plan_rollback : Surroundings → AsahiBootChain → Option AsahiRollbackPlan
plan_rollback os self =
    plan_under self.chain_info (validate self.chain_info) (detect_generations os self)
