-- ===== src/Grpc/Config/Errors.antt =====
-- pkg/api/grpcserver/config.go: what each error of `validate` says of the configuration.
use Prim.Native.String.{String}
use native.Mathlib.Nat.{mul-le-mul}
use mathlib.Core.List.{Memᴰ}
use final_weave.Prelude.{
  ℕ, ◌*◌, ◌≤◌, ◌<◌, ◌≡◌, refl, some, List, [], ◌∷◌, arith, ℤ, pos_part, ◌≤ℤ◌, ◌<ℤ◌, require_error,
  and_then_error, in_range_iff, in_positive_range_iff, between_iff, positive_between_iff, leb_ℤ_iff,
  ltb_ℤ_iff, leb_div_iff,
}
use final_weave.Grpc.Config
use final_weave.Grpc.Config.Limits.{IsSize, IsDuration, quotient_iff, validate_int_range_iff}

abbrev pub sizes : Config.Config → List (String × ℤ)
sizes c =
    ("MaxReceiveMessageBytes", c.max_receive_message_bytes)
    ∷ ("MaxSendMessageBytes", c.max_send_message_bytes)
    ∷ []

abbrev pub Violates : Config.Config → Config.ConfigError → Type 0
Violates c (Config.int_out_of_range name) =
    (value : ℤ) × Memᴰ (name, value) (sizes c) × (¬ IsSize value)
Violates c Config.header_list_out_of_range = ¬ (
    (Config.min_application_metadata_bytes ≤ c.max_header_list_bytes)
    × (c.max_header_list_bytes ≤ Config.max_header_list_bytes))
Violates c Config.streams_out_of_range =
    ¬ ((1 ≤ c.max_concurrent_streams) × (c.max_concurrent_streams ≤ Config.max_concurrent_streams))
Violates c Config.receive_bytes_too_large =
    Config.max_per_connection_receive_bytes
    < pos_part c.max_receive_message_bytes * c.max_concurrent_streams
Violates c Config.send_bytes_too_large =
    Config.max_per_connection_send_bytes
    < pos_part c.max_send_message_bytes * c.max_concurrent_streams
Violates c Config.header_bytes_too_large = ⊥
Violates c (Config.duration_out_of_range name) =
    (d : Config.Duration) × Memᴰ d (Config.durations c) × (d.name ≡ name) × (¬ IsDuration d)
Violates c Config.age_grace_exceeds_age = c.max_connection_age <ℤ c.max_connection_age_grace
Violates c Config.keepalive_timeout_not_less = c.keepalive_time ≤ℤ c.keepalive_timeout

lt_of_not_le : (a b : ℕ) → ¬ (a ≤ b) → b < a
lt_of_not_le a b h = omega arith

-- The largest header list and the most streams meet the limit of the product exactly.
header_product :
    (bytes streams : ℕ)
    → bytes ≤ Config.max_header_list_bytes
    → streams ≤ Config.max_concurrent_streams
    → bytes * streams ≤ Config.max_per_connection_header_bytes
header_product bytes streams hb hs = mul-le-mul hb hs

validate_int_range_error :
    (c : Config.Config) (name : String) (value : ℤ)
    → Memᴰ (name, value) (sizes c)
    → (e : Config.ConfigError)
    → Config.validate_int_range name value Config.max_message_bytes ≡ some e
    → Violates c e
unfolding Config.validate_int_range
validate_int_range_error c name value m =
    require_error (Violates c) _ _ _ (in_positive_range_iff Config.max_message_bytes value)
      (λ bad. (value, m, bad)) (λ _ e h. absurd (cc))

validate_durations_error :
    (c : Config.Config) (ds : List Config.Duration)
    → ((d : Config.Duration) → Memᴰ d ds → Memᴰ d (Config.durations c))
    → (e : Config.ConfigError) → Config.validate_durations ds ≡ some e
    → Violates c e
unfolding Config.validate_durations
validate_durations_error c [] within = λ e h. absurd (cc)
validate_durations_error c (d ∷ rest) within =
    require_error (Violates c) _ _ _ (in_range_iff (Config.least d) d.maximum d.value)
      (λ bad. (d, within d (Memᴰ.head refl), refl, bad))
      (λ _. validate_durations_error c rest (λ x m. within x (Memᴰ.tail m)))

validate_relations_error :
    (c : Config.Config) (e : Config.ConfigError)
    → Config.validate_relations c ≡ some e
    → Violates c e
unfolding Config.validate_relations
validate_relations_error c =
    require_error (Violates c) _ _ _ (leb_ℤ_iff c.max_connection_age_grace c.max_connection_age)
      (λ bad. omega arith)
      λ _.
        require_error (Violates c) _ _ _ (ltb_ℤ_iff c.keepalive_timeout c.keepalive_time)
          (λ bad. omega arith) (λ _ e h. absurd (cc))

module _ (c : Config.Config) (r : IsSize c.max_receive_message_bytes)
    (s : IsSize c.max_send_message_bytes)
    (header : c.max_header_list_bytes ≤ Config.max_header_list_bytes)
    (low : 1 ≤ c.max_concurrent_streams)
    (high : c.max_concurrent_streams ≤ Config.max_concurrent_streams) where
  validate_products_error :
      (e : Config.ConfigError) → Config.validate_products c ≡ some e → Violates c e
  unfolding Config.validate_products
  validate_products_error =
      require_error (Violates c) _ _ _ (quotient_iff c _ _ r low) (λ bad. lt_of_not_le _ _ bad)
        λ _.
          require_error (Violates c) _ _ _ (quotient_iff c _ _ s low) (λ bad. lt_of_not_le _ _ bad)
            λ _.
              require_error (Violates c) _ _ _ (leb_div_iff _ _ _ low)
                (λ bad. bad (header_product _ _ header high)) (λ _ e h. absurd (cc))

-- Every error of `validate` names a limit that the configuration breaks. The limit on the product of
-- header list and streams is never the one: the two ranges before it imply it.
pub grpc_config_error :
    (c : Config.Config) (e : Config.ConfigError) → Config.validate c ≡ some e → Violates c e
unfolding Config.validate
grpc_config_error c =
    and_then_error (Violates c) _ _ (validate_int_range_error c _ _ (Memᴰ.head refl)) λ r.
      and_then_error (Violates c) _ _ (validate_int_range_error c _ _ (Memᴰ.tail (Memᴰ.head refl)))
        λ s.
          require_error (Violates c) _ _ _ (between_iff _ _ _) (λ bad. bad)
            λ b.
              require_error (Violates c) _ _ _ (positive_between_iff _ _) (λ bad. bad)
                λ k.
                  and_then_error (Violates c) _ _
                    (validate_products_error c ((validate_int_range_iff _ _ _).0 r).0
                      ((validate_int_range_iff _ _ _).0 s).0 b.1 k.0 k.1)
                    λ _.
                      and_then_error (Violates c) _ _
                        (validate_durations_error c (Config.durations c) (λ _ m. m))
                        (λ _. validate_relations_error c)
