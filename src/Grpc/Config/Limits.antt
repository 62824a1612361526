-- ===== src/Grpc/Config/Limits.antt =====
-- pkg/api/grpcserver/config.go: the limits that `validate` tests, written as bounds.
use Prim.Native.String.{String}
use final_weave.Prelude.{
  ℕ, ◌*◌, ◌/◌, ◌≤◌, ◌≡◌, refl, ◌↔◌, true, none, List, [], ◌∷◌, All, arith, leb, ℤ, ◌≤ℤ◌, ◌<ℤ◌,
  pos_part, require_iff, InRange, in_range_iff, in_positive_range_iff, uint64, uint64-InRange,
  second, leb_div_iff, between_iff, positive_between_iff, leb_ℤ_iff, ltb_ℤ_iff, and_then_iff,
}
use final_weave.Grpc.Config

abbrev pub IsSize : ℤ → Type 0
IsSize = InRange 1 Config.max_message_bytes

abbrev pub IsDuration : Config.Duration → Type 0
IsDuration d = InRange (Config.least d) d.maximum d.value

-- What an operator may configure.
pub record IsWithinLimits (c : Config.Config) : Type 0 where
  pub receive : InRange 1 Config.max_message_bytes c.max_receive_message_bytes
  pub send : InRange 1 Config.max_message_bytes c.max_send_message_bytes
  pub header_low : Config.min_application_metadata_bytes ≤ c.max_header_list_bytes
  pub header_high : c.max_header_list_bytes ≤ Config.max_header_list_bytes
  pub some_stream : 1 ≤ c.max_concurrent_streams
  pub streams : c.max_concurrent_streams ≤ Config.max_concurrent_streams
  pub receive_total :
      pos_part c.max_receive_message_bytes * c.max_concurrent_streams
      ≤ Config.max_per_connection_receive_bytes
  pub send_total :
      pos_part c.max_send_message_bytes * c.max_concurrent_streams
      ≤ Config.max_per_connection_send_bytes
  pub header_total :
      c.max_header_list_bytes * c.max_concurrent_streams ≤ Config.max_per_connection_header_bytes
  pub unary : InRange 1 Config.max_unary_request_timeout c.unary_request_timeout
  pub idle : InRange 1 Config.max_connection_idle c.max_connection_idle
  pub age : InRange 1 Config.max_connection_age c.max_connection_age
  pub grace : InRange 1 Config.max_connection_age_grace c.max_connection_age_grace
  pub keepalive : InRange second Config.max_keepalive_time c.keepalive_time
  pub keepalive_wait : InRange 1 Config.max_keepalive_timeout c.keepalive_timeout
  pub ping : InRange (10 * second) Config.max_client_ping_interval c.min_client_ping_interval
  pub grace_fits : c.max_connection_age_grace ≤ℤ c.max_connection_age
  pub keepalive_fits : c.keepalive_timeout <ℤ c.keepalive_time

module _ (c : Config.Config) where
  abbrev Products : Type 0
  Products =
      (pos_part c.max_receive_message_bytes * c.max_concurrent_streams
        ≤ Config.max_per_connection_receive_bytes)
      × ((pos_part c.max_send_message_bytes * c.max_concurrent_streams
            ≤ Config.max_per_connection_send_bytes)
          × ((c.max_header_list_bytes * c.max_concurrent_streams
                ≤ Config.max_per_connection_header_bytes)
              × Unit {0}))

  -- A division by the streams bounds a product with them.
  pub quotient_iff :
      (m : ℕ) (size : ℤ)
      → IsSize size
      → 1 ≤ c.max_concurrent_streams
      → (leb (uint64 size) (m / c.max_concurrent_streams) ≡ true)
        ↔ (pos_part size * c.max_concurrent_streams ≤ m)
  quotient_iff m size s some_stream =
      rw (uint64-InRange Config.max_message_bytes size (omega arith) s)
        (leb_div_iff m (pos_part size) c.max_concurrent_streams some_stream)

  validate_products_iff :
      IsSize c.max_receive_message_bytes
      → IsSize c.max_send_message_bytes
      → 1 ≤ c.max_concurrent_streams
      → (Config.validate_products c ≡ none) ↔ Products
  unfolding Config.validate_products
  validate_products_iff r s k = require_iff _ _ _ (quotient_iff _ _ r k) λ _.
      require_iff _ _ _ (quotient_iff _ _ s k)
        λ _. require_iff _ _ _ (leb_div_iff _ _ _ k) λ _. (λ _. tt, λ _. refl)

pub validate_int_range_iff :
    (name : String) (value : ℤ) (maximum : ℕ)
    → (Config.validate_int_range name value maximum ≡ none) ↔ (InRange 1 maximum value × Unit {0})
unfolding Config.validate_int_range
validate_int_range_iff name value maximum =
    require_iff _ _ _ (in_positive_range_iff maximum value) λ _. (λ _. tt, λ _. refl)

validate_durations_iff :
    (ds : List Config.Duration) → (Config.validate_durations ds ≡ none) ↔ All IsDuration ds
unfolding Config.validate_durations
validate_durations_iff [] = (λ _. tt, λ _. refl)
validate_durations_iff (d ∷ rest) =
    require_iff _ _ _ (in_range_iff (Config.least d) d.maximum d.value)
      (λ _. validate_durations_iff rest)

validate_relations_iff :
    (c : Config.Config)
    → (Config.validate_relations c ≡ none) ↔ (
        (c.max_connection_age_grace ≤ℤ c.max_connection_age)
        × ((c.keepalive_timeout <ℤ c.keepalive_time) × Unit {0}))
unfolding Config.validate_relations
validate_relations_iff c =
    require_iff _ _ _ (leb_ℤ_iff c.max_connection_age_grace c.max_connection_age) λ _.
      require_iff _ _ _ (ltb_ℤ_iff c.keepalive_timeout c.keepalive_time) λ _. (λ _. tt, λ _. refl)

nested_iff :
    (c : Config.Config)
    → (Config.validate c ≡ none) ↔ (
        (IsSize c.max_receive_message_bytes × Unit {0})
        × ((IsSize c.max_send_message_bytes × Unit {0})
            × (((Config.min_application_metadata_bytes ≤ c.max_header_list_bytes)
                  × (c.max_header_list_bytes ≤ Config.max_header_list_bytes))
                × (((1 ≤ c.max_concurrent_streams)
                      × (c.max_concurrent_streams ≤ Config.max_concurrent_streams))
                    × (Products c
                        × (All IsDuration (Config.durations c)
                            × ((c.max_connection_age_grace ≤ℤ c.max_connection_age)
                                × ((c.keepalive_timeout <ℤ c.keepalive_time) × Unit {0}))))))))
unfolding Config.validate
nested_iff c = and_then_iff _ _ (validate_int_range_iff _ _ _) λ r.
    and_then_iff _ _ (validate_int_range_iff _ _ _) λ s. require_iff _ _ _ (between_iff _ _ _) λ _.
      require_iff _ _ _ (positive_between_iff _ _) λ k.
        and_then_iff _ _ (validate_products_iff c r.0 s.0 k.0)
          λ _. and_then_iff _ _ (validate_durations_iff _) λ _. validate_relations_iff c

-- `validate` returns no error exactly for the configurations within the limits, the products with the
-- number of streams included.
pub grpc_config_iff : (c : Config.Config) → (Config.validate c ≡ none) ↔ IsWithinLimits c
grpc_config_iff c = (
  λ h.
      let (r, n1) = (nested_iff c).0 h in
      let (s, n2) = n1 in
      let (b, n3) = n2 in
      let (k, n4) = n3 in
      let (p, n5) = n4 in
      let (d, e) = n5 in
      record {
        receive = r.0;
        send = s.0;
        header_low = b.0;
        header_high = b.1;
        some_stream = k.0;
        streams = k.1;
        receive_total = p.0;
        send_total = p.1.0;
        header_total = p.1.1.0;
        unary = d.0;
        idle = d.1.0;
        age = d.1.1.0;
        grace = d.1.1.1.0;
        keepalive = d.1.1.1.1.0;
        keepalive_wait = d.1.1.1.1.1.0;
        ping = d.1.1.1.1.1.1.0;
        grace_fits = e.0;
        keepalive_fits = e.1.0;
      },
  λ v. (nested_iff c).1 (
    (v.receive, tt),
    (
      (v.send, tt),
      (
        (v.header_low, v.header_high),
        (
          (v.some_stream, v.streams),
          (
            (v.receive_total, (v.send_total, (v.header_total, tt))),
            (
              (
                v.unary,
                (v.idle, (v.age, (v.grace, (v.keepalive, (v.keepalive_wait, (v.ping, tt)))))),
              ),
              (v.grace_fits, (v.keepalive_fits, tt)),
            ),
          ),
        ),
      ),
    ),
  ),
)
