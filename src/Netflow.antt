-- ===== src/Netflow.antt =====
-- backend/internal/netflow: from IPFIX datagrams to per-minute traffic summaries.
pub mod Addr
pub mod Template
pub mod Record
pub mod Ipfix
pub mod Prefixes
pub mod IpSet
pub mod Asn
pub mod Classify
pub mod Aggregate
mod Tests
