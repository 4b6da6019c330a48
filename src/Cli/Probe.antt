-- ===== src/Cli/Probe.antt =====
-- What a command of cli.py raises, and `probe_definition_digest` of ab_update_machine.py.
use sourceos_boot.Base.{ℕ, String, not, List, [], ◌∷◌, map, select, is_empty, if◌then◌else◌}
use sourceos_boot.Json.{Dict, get, has_key, object, Hashing, digest_of}
use sourceos_boot.Result.{Result, ok, err}
use sourceos_boot.Ab.Machine.{Fault}

pub data CliError : Type 0 where
  not_an_object slots_not_an_array events_not_an_array : CliError
  probe_incomplete : List String → CliError
  stale_definition_digest no_probe_id : CliError
  not_two_documents mixed_targets : CliError
  machine_fault : Fault → CliError
  no_transaction : CliError
  unknown_event missing_field : ℕ → CliError

-- PROBE_DIGEST_FIELDS
abbrev pub probe_digest_fields : List String
probe_digest_fields =
    "checks" ∷ "evaluatedIn" ∷ "minConsecutivePasses" ∷ "onProbeUnavailable" ∷ "timeoutSeconds"
    ∷ "watchdogs" ∷ []

-- the fields of the projection that a probe does not have
unfoldable pub missing_of : Dict → List String
missing_of probe = select (λ f. not (has_key probe f)) probe_digest_fields

-- the projection
unfoldable pub core_of : Dict → Dict
core_of probe = map (λ f. (f, get probe f)) probe_digest_fields

-- probe_definition_digest
unfoldable pub probe_definition_digest : Hashing → Dict → Result CliError String
probe_definition_digest hashing probe =
    if is_empty (missing_of probe)
    then ok (digest_of hashing (object (core_of probe)))
    else err (probe_incomplete (missing_of probe))
