-- ===== src/Aws/Registry/Tests.antt =====
-- Runs of the registry's rows and writes, and instances of the theorems.
use hands.Base.{String, ◌≡◌, refl, false}
use hands.Base.Result.{ok}
use hands.Base.Word.{checked_add}
use hands.Base.Map.{string_eq}
use hands.Base.Text
use hands.Policy.Connector.{public}
use hands.Policy.Identity
use hands.Policy.Secret.{validate_launch_request}
use hands.Core.Materialization.Spec.{
  TargetSpec, new_spec, validate_identifier, validate_digest, validate_bounded_token, validate_key,
  sandbox_identity,
}
use hands.Core.Materialization.Record.{
  MaterializationLease, AcquireTarget, PhysicalTarget, lease, validate_request,
}
use hands.Core.Materialization.Memory.{record_from_lease}
use hands.Aws.Registry.Item.{Row, materializing_item, parse_record}
use hands.Aws.Registry.Reread.{parse_record-materializing_item}

abbrev pub digest_a : String
digest_a = "aaaaaaaaaaaaaaaaaaaaaaaaaaaaaaaaaaaaaaaaaaaaaaaaaaaaaaaaaaaaaaaa"

abbrev pub digest : TargetSpec → String
digest spec = digest_a

abbrev pub request : AcquireTarget
request = record {
  key = record { root_id = "root-1"; target_key = "target:default" };
  spec = record {
    connector = public;
    image_identity = "image:1";
    resource_class = "standard";
    materialized_mib = 512;
    resource_policy_digest = digest_a;
    network_policy_digest = digest_a;
  };
  reservation_id = "reservation-1";
  generation = "gen-1";
  launch_request = record { expose = "sealed" };
  attempt_id = "attempt-1";
  attempt_duration_ms = 100;
  generation_is_fenced = false;
  now_ms = 50;
  lease_duration_ms = 2000;
  target_lifetime_ms = 1000;
  replace_after_loss = false;
}

abbrev pub first_lease : MaterializationLease
first_lease = record {
  key = request.key;
  spec = request.spec;
  spec_digest = digest_a;
  reservation_id = "reservation-1";
  generation = "gen-1";
  launch_request = record { expose = "sealed" };
  attempt_id = "attempt-1";
  attempt_expires_at_ms = 150;
  target_expires_at_ms = 1050;
  lease_expires_at_ms = 2050;
  recovery_attempt = false;
}

abbrev pub physical : PhysicalTarget
physical = record {
  target_ref = "vm-1";
  generation = "gen-1";
  control_token = record {
    expose = "control-cccccccccccccccccccccccccccccccccccccccccccccccccccccccccccccccc";
  };
}

abbrev row : Row
row = materializing_item first_lease 50

made : lease digest request ≡ ok first_lease
unfolding lease validate_request validate_key sandbox_identity validate_identifier
    Identity.validate_identifier Identity.check_identifier Text.byte_len validate_launch_request
    checked_add
made = refl

parse_record-materializing_item_example :
    parse_record digest (materializing_item first_lease 50) ≡ ok (record_from_lease first_lease 50)
unfolding new_spec validate_bounded_token validate_identifier validate_digest
    Identity.validate_identifier Identity.check_identifier Identity.validate_digest
    Identity.validate_bounded_token Text.byte_len Identity.check_bounded_token Text.is_whitespace
parse_record-materializing_item_example =
    parse_record-materializing_item digest request first_lease made refl refl
