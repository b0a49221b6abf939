-- ===== src/Packet/HashLaws.antt =====
-- What is hashed for a packet, and that the two directors hash it alike.
use glb_director.Base.{
  ℕ, Bool, List, ◌≡◌, length, take, All-append, ◌≤◌, some, if◌then◌else◌, ◌++◌, true, [], sym,
  arith, ◌*◌, false, length-take, All-take, ◌+◌, refl, length-append, ltb, ◌<◌, ◌&&◌, leb,
}
use mathlib.Core.List.{append-nil, append_assoc}
use glb_director.Siphash.Equivalence.{glb_siphash-eq-siphash}
use glb_director.Siphash.Reference.{siphash}
use glb_director.Packet.{RouteContext, max_hash_data_size}
use glb_director.Packet.Hash.{
  HashFields, push_if, push_ipv6_if, push_addresses, hash_data, hash_buffer, glb_compute_hash,
}
use glb_director.Base.Bytes.{IsBytes, le_bytes, IsByte, length-le_bytes, le_bytes-IsBytes}
use glb_director.Headers.{ether_type_ipv4, ether_type_ipv6}

abbrev pub part : Bool → List ℕ → List ℕ
part flag val = if flag then val else []

-- The configured fields of a packet one after the other: source and destination address of `width`
-- bytes, then the ports.
abbrev pub fields : HashFields → ℕ → RouteContext → List ℕ
fields cfg width c =
    part cfg.src_addr (take width c.src_addr)
    ++ (part cfg.dst_addr (take width c.dst_addr)
        ++ (part cfg.src_port (le_bytes 2 c.src_port) ++ part cfg.dst_port (le_bytes 2 c.dst_port)))

-- The width of the addresses that goes with the ether type.
pub data IsIp (c : RouteContext) : ℕ → Type 0 where
  v4 : c.ether_type ≡ ether_type_ipv4 → IsIp c 4
  v6 : c.ether_type ≡ ether_type_ipv6 → IsIp c 16

push_if-part :
    (flag : Bool) (val pushed : List ℕ) → push_if flag val pushed ≡ pushed ++ part flag val
unfolding push_if
push_if-part true val pushed = refl
push_if-part false val pushed = sym (append-nil pushed)

length-part : (flag : Bool) (n : ℕ) (xs : List ℕ) → length (part flag (take n xs)) ≤ n
length-part true n xs = omega (arith, length-take n xs)
length-part false n xs = omega arith

length-part_port : (flag : Bool) (port : ℕ) → length (part flag (le_bytes 2 port)) ≤ 2
length-part_port true port = omega (arith, length-le_bytes 2 port)
length-part_port false port = omega arith

part-IsBytes : (flag : Bool) (xs : List ℕ) → IsBytes xs → IsBytes (part flag xs)
part-IsBytes true xs h = h
part-IsBytes false xs h = tt

fields-IsBytes :
    (cfg : HashFields) (width : ℕ) (c : RouteContext)
    → IsBytes c.src_addr
    → IsBytes c.dst_addr
    → IsBytes (fields cfg width c)
fields-IsBytes cfg width c hs hd =
    All-append IsByte _ _ (part-IsBytes cfg.src_addr _ (All-take IsByte width c.src_addr hs)) (
      All-append IsByte _ _ (part-IsBytes cfg.dst_addr _ (All-take IsByte width c.dst_addr hd)) (
        All-append IsByte _ _ (part-IsBytes cfg.src_port _ (le_bytes-IsBytes 2 c.src_port))
          (part-IsBytes cfg.dst_port _ (le_bytes-IsBytes 2 c.dst_port))))

length-fields-le :
    (cfg : HashFields) (width : ℕ) (c : RouteContext) → length (fields cfg width c) ≤ 2 * width + 4
length-fields-le cfg width c =
    rw (length-append, length-append, length-append)
      (omega (
        arith,
        length-part cfg.src_addr width c.src_addr,
        length-part cfg.dst_addr width c.dst_addr,
        length-part_port cfg.src_port c.src_port,
        length-part_port cfg.dst_port c.dst_port,
      ))

push_ipv6_if-part :
    (ebpf flag : Bool) (val pushed : List ℕ)
    → length pushed ≤ 16
    → push_ipv6_if ebpf flag val pushed ≡ some (pushed ++ part flag val)
unfolding push_ipv6_if
push_ipv6_if-part ebpf flag val pushed h =
    let fits : ltb max_hash_data_size (length pushed + 16) ≡ false = ground arith in
    rw (← push_if-part flag val pushed) (ground arith)

-- The buffer gets the configured fields and no guard stops a push.
hash_data-eq-fields :
    (ebpf : Bool) (cfg : HashFields) (c : RouteContext) {width : ℕ}
    → IsIp c width
    → hash_data ebpf cfg c ≡ some (fields cfg width c)
unfolding hash_data push_addresses
hash_data-eq-fields ebpf cfg c (v4 e) = simp (e, push_if-part, append_assoc)
hash_data-eq-fields ebpf cfg c (v6 e) =
    rw
      (
        e,
        push_ipv6_if-part ebpf cfg.src_addr (take 16 c.src_addr) [] (omega arith),
        push_ipv6_if-part ebpf cfg.dst_addr (take 16 c.dst_addr)
            (part cfg.src_addr (take 16 c.src_addr)) (length-part cfg.src_addr 16 c.src_addr),
      )
      (simp (push_if-part, append_assoc))

fields_fit :
    (cfg : HashFields) (c : RouteContext) {width : ℕ}
    → IsIp c width
    → length (fields cfg width c) ≤ max_hash_data_size
fields_fit cfg c (v4 e) = omega (arith, length-fields-le cfg 4 c)
fields_fit cfg c (v6 e) = omega (arith, length-fields-le cfg 16 c)

hash_buffer-eq-siphash :
    (p secret : List ℕ)
    → IsBytes p
    → IsBytes secret
    → length p ≤ max_hash_data_size
    → hash_buffer p secret ≡ siphash p (length p) secret
unfolding hash_buffer
hash_buffer-eq-siphash p secret v w h = rw (glb_siphash-eq-siphash p secret v w (omega arith))

-- For an IPv4 or IPv6 packet the hash of the DPDK director is the reference SipHash of the
-- configured fields, one after the other, under the table's key, when addresses and key are bytes.
pub glb_compute_hash-eq-siphash :
    (c : RouteContext) (secret : List ℕ) (cfg : HashFields) {width : ℕ}
    → IsIp c width
    → IsBytes c.src_addr
    → IsBytes c.dst_addr
    → IsBytes secret
    → let p = fields cfg width c in
      glb_compute_hash false c secret cfg ≡ siphash p (length p) secret
unfolding glb_compute_hash
glb_compute_hash-eq-siphash c secret cfg {width} ip hs hd hk =
    rw (glb_compute_hash, hash_data-eq-fields false cfg c ip)
      (hash_buffer-eq-siphash (fields cfg width c) secret (fields-IsBytes cfg width c hs hd) hk
        (fields_fit cfg c ip))

-- The XDP director, whose code has the verifier's guards, computes the hash that the DPDK director
-- computes, for every packet of the two kinds and every configuration that selects a field which
-- is there.
pub glb_compute_hash-same :
    (c : RouteContext) (secret : List ℕ) (cfg : HashFields) {width : ℕ}
    → IsIp c width
    → 0 < length (fields cfg width c)
    → glb_compute_hash true c secret cfg ≡ glb_compute_hash false c secret cfg
unfolding glb_compute_hash
glb_compute_hash-same c secret cfg {width} ip h =
    let fits : length (fields cfg width c) ≤ max_hash_data_size = fields_fit cfg c ip in
    let guard : (ltb 0 (length (fields cfg width c))
          && leb (length (fields cfg width c)) max_hash_data_size)
        ≡ true =
      ground arith in
    rw
      (
        glb_compute_hash,
        hash_data-eq-fields true cfg c ip,
        hash_data-eq-fields false cfg c ip,
        guard,
      )
      refl
