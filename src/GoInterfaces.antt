-- ===== src/GoInterfaces.antt =====
-- `isNilInterface` of pkg/api/httpserver/server.go and pkg/api/grpcserver/server.go, and `isNilWriter` of
-- pkg/observability/logging.go: what package reflect says of an interface value.
use final_weave.Prelude.{Bool, true, false}

-- `reflect.Kind`, as far as the code tells kinds apart.
pub data Kind : Type 0 where
  chan func interface map pointer slice other : Kind

-- An interface value: nil, or a value of a kind, which may be nil itself.
pub data GoInterface : Type 0 where
  nil : GoInterface
  holding : Kind → (is_nil : Bool) → GoInterface

-- `IsNil` panics for the other kinds: the code does not call it there.
unfoldable pub is_nil_interface : GoInterface → Bool
is_nil_interface nil = true
is_nil_interface (holding other is_nil) = false
is_nil_interface (holding _ is_nil) = is_nil
