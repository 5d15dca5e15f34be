-- ===== src/Job/Spec.antt =====
-- Keys and specs of control-plane/job/model.go and their validation. Values are immutable here, so
-- `Clone` is the identity.
use astra_sync.Prelude.{
  ℕ, ℤ, suc, Text, is_blank, is_label, Bool, true, false, not, ◌||◌, List, [], ◌∷◌, length, ltb,
  is_positive, ◌==◌, Result, ok, check, ◌>>◌,
}
use astra_sync.Job.Error.{
  Error, Field, namespace, name, source, sink, transform, label_invalid, connector_invalid,
  blank_option_key, blank_transform_type, unsupported_guarantee, batch_not_positive,
}

-- `^[a-z0-9](?:[-a-z0-9]*[a-z0-9])?$`
unfoldable pub matches_dns_label : Text → Bool
matches_dns_label = is_label (λ c. c == 45)

-- `^[a-z0-9](?:[a-z0-9._-]*[a-z0-9])?$`
unfoldable pub matches_connector_name : Text → Bool
matches_connector_name = is_label (λ c. (c == 46) || ((c == 95) || (c == 45)))

unfoldable pub validate_dns_label : Field → Text → Result Error (Unit {0})
unfolding matches_dns_label
validate_dns_label field value =
    check ((length value == 0) || (ltb 63 (length value) || not (matches_dns_label value)))
      (label_invalid field)

pub record Key : Type 0 where
  pub key_namespace : Text
  pub key_name : Text

unfoldable pub validate_key : Key → Result Error (Unit {0})
unfolding validate_dns_label
validate_key k = do validate_dns_label namespace k.key_namespace; validate_dns_label name k.key_name

unfoldable pub new_key : Text → Text → Result Error Key
unfolding validate_key
new_key ns n =
    let key : Key = record { key_namespace = ns; key_name = n } in validate_key key >> ok key

abbrev pub Options : Type 0
Options = List (Text × Text)

pub record ConnectorSpec : Type 0 where
  pub connector : Text
  pub connection_ref : Text
  pub connector_options : Options

pub record TransformSpec : Type 0 where
  pub transform_type : Text
  pub transform_options : Options

pub data DeliveryGuarantee : Type 0 where
  at_most_once at_least_once exactly_once : DeliveryGuarantee
  unsupported_delivery : Text → DeliveryGuarantee

pub record Spec : Type 0 where
  pub source_spec : ConnectorSpec
  pub sink_spec : ConnectorSpec
  pub transforms : List TransformSpec
  pub guarantee : DeliveryGuarantee
  pub max_batch_records : ℤ

-- `range` over the map: the first blank key ends it, and every blank key gives the same error.
unfoldable pub validate_options : Field → Options → Result Error (Unit {0})
validate_options field [] = ok tt
validate_options field ((k, v) ∷ m) =
    check (is_blank k) (blank_option_key field) >> validate_options field m

unfoldable pub validate_connector : Field → ConnectorSpec → Result Error (Unit {0})
unfolding matches_connector_name
validate_connector field c = do
  check (ltb 128 (length c.connector) || not (matches_connector_name c.connector))
      (connector_invalid field)
  validate_options field c.connector_options

-- The loop over the transforms, from position `index` on.
unfoldable pub validate_transforms : ℕ → List TransformSpec → Result Error (Unit {0})
validate_transforms index [] = ok tt
validate_transforms index (t ∷ ts) =
    check (is_blank t.transform_type) (blank_transform_type index)
    >> validate_options (transform index) t.transform_options
    >> validate_transforms (suc index) ts

abbrev supported_guarantee : DeliveryGuarantee → Bool
supported_guarantee (unsupported_delivery g) = false
supported_guarantee _ = true

unfoldable pub validate_spec : Spec → Result Error (Unit {0})
unfolding validate_connector
validate_spec s = do
  validate_connector source s.source_spec
  validate_connector sink s.sink_spec
  validate_transforms 0 s.transforms
  check (not (supported_guarantee s.guarantee)) unsupported_guarantee
  check (not (is_positive s.max_batch_records)) batch_not_positive
