-- ===== src/BuildConfig/BindLaws.antt =====
-- What build-config writes for the binds is what the director accepts.
use mathlib.Core.Option.{some_inj}
use glb_director.FwdConfig.{Backend, Bind, fmt_max_num_binds}
use glb_director.FwdConfig.CheckLaws.{IsBind, IsFamily, IsProto, check_binds_iff}
use glb_director.Classifier.StoredFields.{FitsBind}
use glb_director.BuildConfig.{BindEntry, family_ipv6, family_ipv4}
use glb_director.Base.{
  ◌≤◌, List, if◌then◌else◌, ℕ, ◌==◌, ◌≡◌, Option, length, some, ◌<◌, length-take, none, ◌^◌, ◌++◌,
  replicate, length-append, arith, unbind, Bool, All, inr, take, ◌∷◌, inl, subst, map, [], suc,
  true, ap, false, zero, refl, All-take,
}
use glb_director.BuildConfig.Binds.{
  port_number, mask_bits, proto_number, in_union, bind_entry_of, BindJson, bind_port, is_ipv6,
  strchr, build_binds, cut_at,
}
use glb_director.FwdConfig.Check.{check_binds}

-- The entry as the director reads it: the two declarations of the struct have the same layout.
abbrev pub as_read : BindEntry → Bind
as_read e = record {
  family = e.inet_family;
  addr = e.ip;
  ip_bits = e.ip_bits;
  port_start = e.port_start;
  port_end = e.port_end;
  proto = e.ipproto;
}

-- An entry that the director can use: a known family and protocol, ports of 16 bits, and a mask no
-- longer than the address.
abbrev pub IsUsable : Bind → Type 0
IsUsable b =
    IsBind b
    × FitsBind b
    × (b.ip_bits ≤ (if b.family == family_ipv6 then 128 else 32))
    × (length b.addr ≡ 16)

port_number-lt : (value port : ℕ) → port_number value ≡ some port → port < 2 ^ 16
unfolding port_number
port_number-lt value port e = ground arith

mask_bits-le :
    (atoi : List ℕ → ℕ) (full : ℕ) (slash : Option (List ℕ)) (bits : ℕ)
    → mask_bits atoi full slash ≡ some bits
    → bits ≤ full
unfolding mask_bits
mask_bits-le atoi full none bits e = ground arith
mask_bits-le atoi full (some slash) bits e = ground arith

proto_number-known :
    (proto : List ℕ) (number : ℕ)
    → proto_number proto ≡ some number
    → IsProto number × (number < 2 ^ 8)
unfolding proto_number
proto_number-known proto number e = ground arith

union_length : (addr : List ℕ) → length (in_union addr) ≡ 16
union_length addr =
    let l = length-take 16 (addr ++ replicate 16 0) in
    let a = length-append addr (replicate 16 0) in omega arith

fields-IsUsable :
    (six : Bool) (addr : List ℕ) (bits start last number : ℕ)
    → IsProto number × (number < 2 ^ 8)
    → start < 2 ^ 16
    → last < 2 ^ 16
    → bits ≤ (if six then 128 else 32)
    → length addr ≡ 16
    → IsUsable (record {
      family = if six then family_ipv6 else family_ipv4;
      addr = addr;
      ip_bits = bits;
      port_start = start;
      port_end = last;
      proto = number;
    })
fields-IsUsable true addr bits start last number p s l b h =
    ((inr refl, p.0), (p.1, s, l, omega arith), b, h)
fields-IsUsable false addr bits start last number p s l b h =
    ((inl refl, p.0), (p.1, s, l, omega arith), b, h)

bind_entry_of-IsUsable :
    (inet_pton : ℕ → List ℕ → Option (List ℕ)) (atoi : List ℕ → ℕ) (bind : BindJson) (e : BindEntry)
    → bind_entry_of inet_pton atoi bind ≡ some e
    → IsUsable (as_read e)
unfolding bind_entry_of
bind_entry_of-IsUsable inet_pton atoi bind e r =
    let (ip, e1, r1) = unbind bind.ip _ e r in
    let (proto, e2, r2) = unbind bind.proto _ e r1 in
    let (start, e3, r3) = unbind (port_number (bind_port bind.port bind.port_start)) _ e r2 in
    let (last, e4, r4) = unbind (port_number (bind_port bind.port bind.port_end)) _ e r3 in
    let (bits, e5, r5) =
      unbind (mask_bits atoi (if is_ipv6 ip then 128 else 32) (strchr ip 47)) _ e r4 in
    let (addr, e6, r6) =
      unbind (inet_pton (if is_ipv6 ip then family_ipv6 else family_ipv4) (cut_at ip 47)) _ e r5 in
    let (number, e7, r7) = unbind (proto_number proto) _ e r6 in
    subst (λ x. IsUsable (as_read x)) (some_inj.0 r7)
      (fields-IsUsable (is_ipv6 ip) (in_union addr) bits start last number
        (proto_number-known proto number e7) (port_number-lt _ start e3) (port_number-lt _ last e4)
        (mask_bits-le atoi _ (strchr ip 47) bits e5) (union_length addr))

-- Every entry of the array is written, and those that stand for a bind can be used.
build_binds-Usable :
    (inet_pton : ℕ → List ℕ → Option (List ℕ)) (atoi : List ℕ → ℕ) (slots : ℕ)
    (binds : List BindJson) (out : List BindEntry)
    → build_binds inet_pton atoi slots binds ≡ some out
    → (length out ≡ slots) × All IsUsable (take (length binds) (map as_read out))
unfolding build_binds
build_binds-Usable inet_pton atoi zero binds out r =
    subst (λ o. (length o ≡ 0) × All IsUsable (take (length binds) (map as_read o))) (some_inj.0 r)
      (refl, All-take IsUsable (length binds) [] tt)
build_binds-Usable inet_pton atoi (suc slots) [] out r =
    let (rest, e, s) = unbind (build_binds inet_pton atoi slots []) _ out r in
    let ih = build_binds-Usable inet_pton atoi slots [] rest e in
    subst (λ o. (length o ≡ suc slots) × Unit) (some_inj.0 s) (ap suc ih.0, tt)
build_binds-Usable inet_pton atoi (suc slots) (bind ∷ binds) out r =
    let (entry, e1, r1) = unbind (bind_entry_of inet_pton atoi bind) _ out r in
    let (rest, e2, s) = unbind (build_binds inet_pton atoi slots binds) _ out r1 in
    let ih = build_binds-Usable inet_pton atoi slots binds rest e2 in
    subst
      (λ o. (length o ≡ suc slots) × All IsUsable (take (length (bind ∷ binds)) (map as_read o)))
      (some_inj.0 s) (ap suc ih.0, (bind_entry_of-IsUsable inet_pton atoi bind entry e1, ih.1))

usable_known : (bs : List Bind) → All IsUsable bs → All IsBind bs
usable_known [] h = tt
usable_known (b ∷ bs) h = (h.0.0, usable_known bs h.1)

-- When build-config comes to a result for the binds of a table, it fills the array of 256 entries, and
-- the director's check accepts the entries that stand for a bind, over backends whose families it
-- knows.
pub build_binds-accepted :
    (inet_pton : ℕ → List ℕ → Option (List ℕ)) (atoi : List ℕ → ℕ) (binds : List BindJson)
    (out : List BindEntry) (backends : List Backend)
    → build_binds inet_pton atoi fmt_max_num_binds binds ≡ some out
    → All (λ (b : Backend). IsFamily b.family) backends
    → (length out ≡ fmt_max_num_binds)
      × All IsUsable (take (length binds) (map as_read out))
      × (check_binds (take (length binds) (map as_read out)) backends ≡ 0)
build_binds-accepted inet_pton atoi binds out backends r known =
    let u = build_binds-Usable inet_pton atoi fmt_max_num_binds binds out r in
    (
      u.0,
      u.1,
      (check_binds_iff (take (length binds) (map as_read out)) backends).1
          (usable_known (take (length binds) (map as_read out)) u.1, λ some_bind. known),
    )
