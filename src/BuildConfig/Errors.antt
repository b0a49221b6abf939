-- ===== src/BuildConfig/Errors.antt =====
-- Which binds build-config accepts, and which stop it.
use mathlib.Core.Option.{some_inj, none-ne-some, Option}
use glb_director.BuildConfig.Binds.{
  port_number, mask_bits, proto_number, BindJson, same_text, bind_entry_of, build_binds, bind_port,
  text_tcp, strchr, is_ipv6, text_udp, empty_entry, ipproto_tcp, cut_at, ipproto_udp,
}
use glb_director.Base.{
  ◌≡◌, List, ℕ, some, ◌%◌, drop, ◌^◌, All, ◌<◌, ◌≤◌, true, unbind, take, ◌↔◌, if◌then◌else◌, arith,
  subst, ◌⊎◌, suc, [], ◌∷◌, All-take, none, inl, refl, inr, zero, Bool-cases,
}
use glb_director.BuildConfig.{BindEntry, family_ipv6, family_ipv4}
use glb_director.FwdConfig.{fmt_max_num_binds}

-- The members of a bind can be used: it has an address with a mask that
-- is no longer than it, ports that fit, and TCP or UDP.
pub record IsAcceptable (inet_pton : ℕ → List ℕ → Option (List ℕ)) (atoi : List ℕ → ℕ)
    (bind : BindJson) : Type 0 where
  pub ip : List ℕ
  pub proto : List ℕ
  pub addr : List ℕ
  pub ip_lem : bind.ip ≡ some ip
  pub proto_lem : bind.proto ≡ some proto
  pub start_fits : bind_port bind.port bind.port_start % 2 ^ 32 < 2 ^ 16
  pub last_fits : bind_port bind.port bind.port_end % 2 ^ 32 < 2 ^ 16
  pub mask_fits :
      (slash : List ℕ)
      → strchr ip 47 ≡ some slash
      → atoi (drop 1 slash) % 2 ^ 32 ≤ (if is_ipv6 ip then 128 else 32)
  pub addr_lem :
      inet_pton (if is_ipv6 ip then family_ipv6 else family_ipv4) (cut_at ip 47) ≡ some addr
  pub proto_known : (same_text proto text_tcp ≡ true) ⊎ (same_text proto text_udp ≡ true)

abbrev pub Succeeds : {A : Type 0} → Option A → Type 0
Succeeds {A} o = (a : A) × (o ≡ some a)

port_fits : (v port : ℕ) → port_number v ≡ some port → v % 2 ^ 32 < 2 ^ 16
unfolding port_number
port_fits v port e = ground arith

port_number-some : (v : ℕ) → v % 2 ^ 32 < 2 ^ 16 → port_number v ≡ some (v % 2 ^ 32)
unfolding port_number
port_number-some v h = ground arith

mask_le :
    (atoi : List ℕ → ℕ) (full bits : ℕ) (found : Option (List ℕ))
    → mask_bits atoi full found ≡ some bits
    → (slash : List ℕ) → found ≡ some slash
    → atoi (drop 1 slash) % 2 ^ 32 ≤ full
unfolding mask_bits
mask_le atoi full bits none e slash f = absurd (none-ne-some slash f)
mask_le atoi full bits (some s) e slash f =
    subst (λ t. atoi (drop 1 t) % 2 ^ 32 ≤ full) (some_inj.0 f) (ground arith)

mask-Succeeds :
    (atoi : List ℕ → ℕ) (full : ℕ) (found : Option (List ℕ))
    → ((slash : List ℕ) → found ≡ some slash → atoi (drop 1 slash) % 2 ^ 32 ≤ full)
    → Succeeds (mask_bits atoi full found)
unfolding mask_bits
mask-Succeeds atoi full none h = (full, refl)
mask-Succeeds atoi full (some slash) h =
    let le = h slash refl in (atoi (drop 1 slash) % 2 ^ 32, ground arith)

proto_tcp_or_udp :
    (proto : List ℕ) (number : ℕ)
    → proto_number proto ≡ some number
    → (same_text proto text_tcp ≡ true) ⊎ (same_text proto text_udp ≡ true)
unfolding proto_number
proto_tcp_or_udp proto number e = ground arith

proto-Succeeds :
    (proto : List ℕ)
    → (same_text proto text_tcp ≡ true) ⊎ (same_text proto text_udp ≡ true)
    → Succeeds (proto_number proto)
unfolding proto_number
proto-Succeeds proto (inl tcp) = (ipproto_tcp, rw tcp refl)
proto-Succeeds proto (inr udp) = elim (Bool-cases (same_text proto text_tcp)) [
  | inl tcp ↦ (ipproto_tcp, rw tcp refl)
  | inr other ↦ (ipproto_udp, rw (other, udp) refl)
]

module _ (inet_pton : ℕ → List ℕ → Option (List ℕ)) (atoi : List ℕ → ℕ) where
  bind-IsAcceptable :
      (bind : BindJson) (e : BindEntry)
      → bind_entry_of inet_pton atoi bind ≡ some e
      → IsAcceptable inet_pton atoi bind
  unfolding bind_entry_of
  bind-IsAcceptable bind e r =
      let (ip, e1, r1) = unbind bind.ip _ e r in
      let (proto, e2, r2) = unbind bind.proto _ e r1 in
      let (start, e3, r3) = unbind (port_number (bind_port bind.port bind.port_start)) _ e r2 in
      let (last, e4, r4) = unbind (port_number (bind_port bind.port bind.port_end)) _ e r3 in
      let (bits, e5, r5) =
        unbind (mask_bits atoi (if is_ipv6 ip then 128 else 32) (strchr ip 47)) _ e r4 in
      let (addr, e6, r6) =
        unbind (inet_pton (if is_ipv6 ip then family_ipv6 else family_ipv4) (cut_at ip 47)) _ e
          r5 in
      let (number, e7, r7) = unbind (proto_number proto) _ e r6 in
      record {
        ip = ip;
        proto = proto;
        addr = addr;
        ip_lem = e1;
        proto_lem = e2;
        start_fits = port_fits _ start e3;
        last_fits = port_fits _ last e4;
        mask_fits = mask_le atoi _ bits (strchr ip 47) e5;
        addr_lem = e6;
        proto_known = proto_tcp_or_udp proto number e7;
      }

  acceptable-Succeeds :
      (bind : BindJson)
      → IsAcceptable inet_pton atoi bind
      → Succeeds (bind_entry_of inet_pton atoi bind)
  unfolding bind_entry_of
  acceptable-Succeeds bind a =
      let (bits, m) = mask-Succeeds atoi _ (strchr a.ip 47) a.mask_fits in
      let (number, n) = proto-Succeeds a.proto a.proto_known in
      rw
        (
          a.ip_lem,
          a.proto_lem,
          port_number-some _ a.start_fits,
          port_number-some _ a.last_fits,
          m,
          a.addr_lem,
          n,
        )
        (_, refl)

  built :
      (slots : ℕ) (binds : List BindJson) (out : List BindEntry)
      → build_binds inet_pton atoi slots binds ≡ some out
      → All (IsAcceptable inet_pton atoi) (take slots binds)
  unfolding build_binds
  built zero binds out r = tt
  built (suc slots) [] out r = tt
  built (suc slots) (bind ∷ binds) out r =
      let (entry, e1, r1) = unbind (bind_entry_of inet_pton atoi bind) _ out r in
      let (rest, e2, s) = unbind (build_binds inet_pton atoi slots binds) _ out r1 in
      (bind-IsAcceptable bind entry e1, built slots binds rest e2)

  builds :
      (slots : ℕ) (binds : List BindJson)
      → All (IsAcceptable inet_pton atoi) (take slots binds)
      → Succeeds (build_binds inet_pton atoi slots binds)
  unfolding build_binds
  builds zero binds h = ([], refl)
  builds (suc slots) [] h =
      let (rest, e) = builds slots [] (All-take (IsAcceptable inet_pton atoi) slots [] tt) in
      (empty_entry ∷ rest, rw e refl)
  builds (suc slots) (bind ∷ binds) h =
      let (entry, e1) = acceptable-Succeeds bind h.0 in
      let (rest, e2) = builds slots binds h.1 in (entry ∷ rest, rw (e1, e2) refl)

  -- build-config comes to a result for the binds of a table exactly when each of the first 256 is
  -- acceptable: it has an IP and a protocol, its ports fit 16 bits as the `int` holds them, its mask is
  -- no longer than the address, `inet_pton` reads the text before the slash, and the protocol is TCP
  -- or UDP.
  pub build_binds_iff :
      (binds : List BindJson)
      → Succeeds (build_binds inet_pton atoi fmt_max_num_binds binds)
        ↔ All (IsAcceptable inet_pton atoi) (take fmt_max_num_binds binds)
  build_binds_iff binds =
      (λ done. built fmt_max_num_binds binds done.0 done.1, builds fmt_max_num_binds binds)
