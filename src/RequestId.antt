-- ===== src/RequestId.antt =====
-- What both adapters do to a request ID: Go's `range` over a string, the alphabet that
-- `acceptedRequestID` allows (its loop stands in pkg/api/httpserver/server.go and once more in
-- pkg/api/grpcserver/interceptors.go), and `strconv.FormatUint(n, 36)`. A Go string is the list of
-- its bytes.
pub mod Runes
pub mod Base36
pub mod Alphabet
