-- ===== src/Netflow/Aggregate/Keys.antt =====
-- backend/internal/netflow/aggregate.go: the keys of the open minute and of the open window.
use tikman.Prelude.{ℕ, ◌↔◌, ◌≡◌, arith, Bool, true, false, ◌&&◌, nat_beq, Comparable}
use tikman.Netflow.Addr.{Addr, beq_addr, beq_addr_iff, Prefix, beq_prefix, beq_prefix_iff}
use tikman.Netflow.Classify.{Direction, download, upload}

pub record MinuteKey : Type 0 where
  pub router_id : ℕ
  pub pop : ℕ
  pub upstream : ℕ
  pub direction : Direction
  pub asn : ℕ

pub record OwnKey : Type 0 where
  pub router_id : ℕ
  pub prefix : Prefix
  pub upstream : ℕ
  pub direction : Direction

pub record GroupKey : Type 0 where
  pub router_id : ℕ
  pub pop : ℕ
  pub direction : Direction

pub record PopKey : Type 0 where
  pub router_id : ℕ
  pub pop : ℕ

pub record IpKey : Type 0 where
  pub group : GroupKey
  pub ip : Addr

abbrev pub beq_direction : Direction → Direction → Bool
beq_direction download download = true
beq_direction download upload = false
beq_direction upload download = false
beq_direction upload upload = true

abbrev pub beq_minute_key : MinuteKey → MinuteKey → Bool
beq_minute_key a b =
    nat_beq a.router_id b.router_id
    && nat_beq a.pop b.pop
    && nat_beq a.upstream b.upstream
    && beq_direction a.direction b.direction
    && nat_beq a.asn b.asn

pub beq_minute_key_iff : (a b : MinuteKey) → (beq_minute_key a b ≡ true) ↔ (a ≡ b)
beq_minute_key_iff a b = ground arith

instance abbrev pub minute_key_eq : Comparable MinuteKey
minute_key_eq = record { same = beq_minute_key; same_iff = beq_minute_key_iff }

abbrev pub beq_own_key : OwnKey → OwnKey → Bool
beq_own_key a b =
    nat_beq a.router_id b.router_id
    && beq_prefix a.prefix b.prefix
    && nat_beq a.upstream b.upstream
    && beq_direction a.direction b.direction

pub beq_own_key_iff : (a b : OwnKey) → (beq_own_key a b ≡ true) ↔ (a ≡ b)
beq_own_key_iff a b = ground (arith, beq_prefix_iff a.prefix b.prefix)

instance abbrev pub own_key_eq : Comparable OwnKey
own_key_eq = record { same = beq_own_key; same_iff = beq_own_key_iff }

abbrev pub beq_group_key : GroupKey → GroupKey → Bool
beq_group_key a b =
    nat_beq a.router_id b.router_id && nat_beq a.pop b.pop && beq_direction a.direction b.direction

pub beq_group_key_iff : (a b : GroupKey) → (beq_group_key a b ≡ true) ↔ (a ≡ b)
beq_group_key_iff a b = ground arith

instance abbrev pub group_key_eq : Comparable GroupKey
group_key_eq = record { same = beq_group_key; same_iff = beq_group_key_iff }

abbrev pub beq_pop_key : PopKey → PopKey → Bool
beq_pop_key a b = nat_beq a.router_id b.router_id && nat_beq a.pop b.pop

pub beq_pop_key_iff : (a b : PopKey) → (beq_pop_key a b ≡ true) ↔ (a ≡ b)
beq_pop_key_iff a b = ground arith

instance abbrev pub pop_key_eq : Comparable PopKey
pop_key_eq = record { same = beq_pop_key; same_iff = beq_pop_key_iff }

abbrev pub beq_ip_key : IpKey → IpKey → Bool
beq_ip_key a b = beq_group_key a.group b.group && beq_addr a.ip b.ip

pub beq_ip_key_iff : (a b : IpKey) → (beq_ip_key a b ≡ true) ↔ (a ≡ b)
beq_ip_key_iff a b = ground (arith, beq_addr_iff a.ip b.ip)

instance abbrev pub ip_key_eq : Comparable IpKey
ip_key_eq = record { same = beq_ip_key; same_iff = beq_ip_key_iff }
