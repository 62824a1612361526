-- ===== src/Http/Config/Limits.antt =====
-- pkg/api/httpserver/server.go: the limits that `validate` tests, written as bounds, and its errors.
use Prim.Native.String.{String}
use mathlib.Core.List.{Memᴰ}
use final_weave.Prelude.{
  ℕ, ◌*◌, ◌≤◌, ◌<◌, ◌≡◌, refl, ◌↔◌, true, none, some, List, [], ◌∷◌, All, arith, leb, ℤ, pos_part,
  require_iff, require_error, InRange, in_positive_range_iff, leb-div_iff_product, uint64, ◌/◌,
}
use final_weave.Http.Config.{
  Config, ConfigError, read_buffer_bytes_out_of_range, max_connections_out_of_range,
  aggregate_read_buffer_too_large, timeout_out_of_range, validate, validate_timeouts, timeouts,
  max_read_buffer, max_connections, max_aggregate_read_buffer_size, max_timeout,
}

abbrev pub IsTimeout : ℤ → Type 0
IsTimeout = InRange 1 max_timeout

abbrev aggregate : Config → ℕ
aggregate c = pos_part c.max_connections * pos_part c.read_buffer_bytes

-- What an operator may configure.
pub record IsWithinLimits (c : Config) : Type 0 where
  pub read_buffer : InRange 1 max_read_buffer c.read_buffer_bytes
  pub connections : InRange 1 max_connections c.max_connections
  pub buffers :
      pos_part c.max_connections * pos_part c.read_buffer_bytes ≤ max_aggregate_read_buffer_size
  pub read : IsTimeout c.read_timeout
  pub write : IsTimeout c.write_timeout
  pub idle : IsTimeout c.idle_timeout
  pub request : IsTimeout c.request_timeout

validate_timeouts_iff :
    (ts : List (String × ℤ)) → (validate_timeouts ts ≡ none) ↔ All (λ t. IsTimeout t.1) ts
unfolding validate_timeouts
validate_timeouts_iff [] = (λ _. tt, λ _. refl)
validate_timeouts_iff ((name, value) ∷ rest) =
    require_iff _ _ _ (in_positive_range_iff max_timeout value) (λ _. validate_timeouts_iff rest)

aggregate_iff :
    (c : Config)
    → InRange 1 max_read_buffer c.read_buffer_bytes
    → InRange 1 max_connections c.max_connections
    → (leb (uint64 c.max_connections) (max_aggregate_read_buffer_size / uint64 c.read_buffer_bytes)
        ≡ true)
      ↔ (aggregate c ≤ max_aggregate_read_buffer_size)
aggregate_iff c r k =
    leb-div_iff_product max_aggregate_read_buffer_size max_connections max_read_buffer
      c.max_connections c.read_buffer_bytes (omega arith) (omega arith) k r

lt_of_not_le : (a b : ℕ) → ¬ (a ≤ b) → b < a
lt_of_not_le a b h = omega arith

nested_iff :
    (c : Config)
    → (validate c ≡ none) ↔ (
        InRange 1 max_read_buffer c.read_buffer_bytes
        × (InRange 1 max_connections c.max_connections
            × ((aggregate c ≤ max_aggregate_read_buffer_size)
                × All (λ (t : String × ℤ). IsTimeout t.1) (timeouts c))))
unfolding validate
nested_iff c = require_iff _ _ _ (in_positive_range_iff max_read_buffer c.read_buffer_bytes) λ r.
    require_iff _ _ _ (in_positive_range_iff max_connections c.max_connections)
      λ k. require_iff _ _ _ (aggregate_iff c r k) λ _. validate_timeouts_iff (timeouts c)

-- `validate` returns no error exactly for the configurations within the limits. The division in the
-- code stands for the product of buffer size and connections, which is at most 64 MiB.
pub http_config_iff : (c : Config) → (validate c ≡ none) ↔ IsWithinLimits c
http_config_iff c = (
  λ h.
      let n = (nested_iff c).0 h in
      record {
        read_buffer = n.0;
        connections = n.1.0;
        buffers = n.1.1.0;
        read = n.1.1.1.0;
        write = n.1.1.1.1.0;
        idle = n.1.1.1.1.1.0;
        request = n.1.1.1.1.1.1.0;
      },
  λ v.
      (nested_iff c).1 (
        v.read_buffer,
        (v.connections, (v.buffers, (v.read, (v.write, (v.idle, (v.request, tt)))))),
      ),
)

-- What an error of `validate` says of the configuration: the limit that it names is the first one
-- that fails, in the order of the code (for a timeout: one of that name fails).
abbrev pub Violates : Config → ConfigError → Type 0
Violates c read_buffer_bytes_out_of_range = ¬ InRange 1 max_read_buffer c.read_buffer_bytes
Violates c max_connections_out_of_range =
    InRange 1 max_read_buffer c.read_buffer_bytes × (¬ InRange 1 max_connections c.max_connections)
Violates c aggregate_read_buffer_too_large =
    InRange 1 max_read_buffer c.read_buffer_bytes
    × InRange 1 max_connections c.max_connections
    × (max_aggregate_read_buffer_size < aggregate c)
Violates c (timeout_out_of_range name) =
    (value : ℤ) × Memᴰ (name, value) (timeouts c) × (¬ IsTimeout value)

-- Every error of the loop names a timeout of the list that is out of range.
validate_timeouts_error :
    (V : ConfigError → Type 0) (ts : List (String × ℤ))
    → ((t : String × ℤ) → Memᴰ t ts → ¬ IsTimeout t.1 → V (timeout_out_of_range t.0))
    → (e : ConfigError) → validate_timeouts ts ≡ some e
    → V e
unfolding validate_timeouts
validate_timeouts_error V [] now = λ e h. cc
validate_timeouts_error V ((name, value) ∷ rest) now =
    require_error V _ _ _ (in_positive_range_iff max_timeout value) (now _ (Memᴰ.head refl))
      (λ _. validate_timeouts_error V rest (λ t m. now t (Memᴰ.tail m)))

-- Every error of `validate` names a limit that the configuration breaks, and the first such limit of
-- the three sizes.
pub http_config_error : (c : Config) (e : ConfigError) → validate c ≡ some e → Violates c e
unfolding validate
http_config_error c =
    require_error (Violates c) _ _ _ (in_positive_range_iff max_read_buffer c.read_buffer_bytes)
      (λ no_buffer. no_buffer)
      λ r.
        require_error (Violates c) _ _ _ (in_positive_range_iff max_connections c.max_connections)
          (λ no_count. (r, no_count))
          λ k.
            require_error (Violates c) _ _ _ (aggregate_iff c r k)
              (λ no_room. (r, k, lt_of_not_le _ _ no_room))
              λ _. validate_timeouts_error (Violates c) (timeouts c) (λ t m bad. (t.1, m, bad))
