-- ===== src/Packet/Hash.antt =====
-- src/glb-hashing/packet_parsing.h: `glb_compute_hash`, which picks the fields to hash.
use glb_director.Base.{
  ℕ, Bool, Option, ◌^◌, List, ◌-◌, ◌++◌, if◌then◌else◌, ◌>>=◌, ◌==◌, some, replicate, length, take,
  [], none, ◌&&◌, not, ltb, leb, ◌+◌,
}
use mathlib.Core.Option
use glb_director.Siphash.Limited.{required_in_size, glb_siphash}
use glb_director.Packet.{RouteContext, max_hash_data_size}
use glb_director.Headers.{ether_type_ipv4, ether_type_ipv6}
use glb_director.Base.Bytes.{le_bytes}

-- glb_director_hash_fields. A field of the struct is set when it is not 0.
pub record HashFields : Type 0 where
  pub src_addr : Bool
  pub dst_addr : Bool
  pub src_port : Bool
  pub dst_port : Bool

-- `if (flag) { hash_curr = push(hash_curr, val); hash_len += sizeof(val); }`: the bytes pushed so far.
unfoldable pub push_if : Bool → List ℕ → List ℕ → List ℕ
push_if flag val pushed = if flag then pushed ++ val else pushed

-- The push of an IPv6 address; under EBPF_VERIFIER_GUARD it must end within the hash data.
unfoldable pub push_ipv6_if : Bool → Bool → List ℕ → List ℕ → Option (List ℕ)
push_ipv6_if ebpf flag val pushed =
    if flag && ebpf && ltb max_hash_data_size (length pushed + 16)
    then none
    else some (push_if flag val pushed)

-- The addresses: `none` is the return of -1, for a packet that is neither IPv4 nor IPv6.
unfoldable pub push_addresses : Bool → HashFields → RouteContext → Option (List ℕ)
push_addresses ebpf cfg c =
    if c.ether_type == ether_type_ipv4
    then some
        (push_if cfg.dst_addr (take 4 c.dst_addr) (push_if cfg.src_addr (take 4 c.src_addr) []))
    else if c.ether_type == ether_type_ipv6
    then (push_ipv6_if ebpf cfg.src_addr (take 16 c.src_addr) [] >>= λ src.
        push_ipv6_if ebpf cfg.dst_addr (take 16 c.dst_addr) src)
    else none

-- The bytes that go into the zeroed buffer, in order.
unfoldable pub hash_data : Bool → HashFields → RouteContext → Option (List ℕ)
hash_data ebpf cfg c = do
  addresses ← push_addresses ebpf cfg c
  some (
      push_if cfg.dst_port (le_bytes 2 c.dst_port)
        (push_if cfg.src_port (le_bytes 2 c.src_port) addresses))

-- The value that `return -1` gives as a uint64_t.
abbrev pub minus_one : ℕ
minus_one = 2 ^ 64 - 1

-- `uint64_t pkt_hash = 0; glb_siphash(&pkt_hash, hash_buf, hash_len, secret); return pkt_hash;`
unfoldable pub hash_buffer : List ℕ → List ℕ → ℕ
hash_buffer pushed secret =
    Option.get_or
      (glb_siphash (pushed ++ replicate (required_in_size - length pushed) 0) (length pushed)
        secret)
      0

-- glb_compute_hash. `ebpf` says whether EBPF_VERIFIER_GUARD is defined.
unfoldable pub glb_compute_hash : Bool → RouteContext → List ℕ → HashFields → ℕ
glb_compute_hash ebpf c secret cfg = elim (hash_data ebpf cfg c) [
  | none ↦ minus_one
  | some pushed ↦
      if ebpf && not (ltb 0 (length pushed) && leb (length pushed) max_hash_data_size)
      then minus_one
      else hash_buffer pushed secret
]
