-- ===== src/Access.antt =====
-- The filters that admit or reject a request by a key: ip_blacklist.go, whitelist.go, geo_filter*.go.
-- A filter's key function is arbitrary. A set of strings is a map to nothing, `map[string]struct{}`.
mod KeySet
pub mod Blacklist
pub mod Whitelist
pub mod Geo
mod Tests
