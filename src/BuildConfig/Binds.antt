-- ===== src/BuildConfig/Binds.antt =====
-- src/glb-director/cli/main.c: the binds of one table, from the JSON description to the entries that
-- are written. `inet_pton` (with `none` for a status of 0 or less) and `atoi` are the C library's,
-- and parameters; what the calls of the JSON library return for one bind is a record. The source
-- exits at the first error, which is `none` here. A text is the list of its characters, and the
-- address family that `inet_pton` is called with is named by the number of the file, 1 or 2.
use glb_director.Base.{
  ℕ, Option, List, replicate, none, ◌∷◌, Bool, some, ◌%◌, if◌then◌else◌, take, ◌>>=◌, ◌==◌, [], ◌^◌,
  drop, ◌++◌, true, leb, ltb, suc, false, zero, ◌&&◌,
}
use glb_director.BuildConfig.{BindEntry, family_ipv4, family_ipv6}

abbrev pub ipproto_udp : ℕ
ipproto_udp = 17

abbrev pub ipproto_tcp : ℕ
ipproto_tcp = 6

-- What the members of a bind give: `json_string_value` of "ip" and "proto" (`none` for NULL), and
-- `json_integer_value` of the ports, a 64-bit word in two's complement. `port` is `none` when there is
-- no such member; the value of a missing "port_start" or "port_end" is 0.
pub record BindJson : Type 0 where
  pub ip : Option (List ℕ)
  pub proto : Option (List ℕ)
  pub port : Option ℕ
  pub port_start : ℕ
  pub port_end : ℕ

-- strchr: the text from the character on.
unfoldable pub strchr : List ℕ → ℕ → Option (List ℕ)
strchr [] c = none
strchr (x ∷ xs) c = if x == c then some (x ∷ xs) else strchr xs c

-- The text that is left when the character is overwritten with '\0'.
unfoldable pub cut_at : List ℕ → ℕ → List ℕ
cut_at [] c = []
cut_at (x ∷ xs) c = if x == c then [] else x ∷ cut_at xs c

-- `!strcmp(a, b)`
unfoldable pub same_text : List ℕ → List ℕ → Bool
same_text [] [] = true
same_text [] (y ∷ ys) = false
same_text (x ∷ xs) [] = false
same_text (x ∷ xs) (y ∷ ys) = x == y && same_text xs ys

abbrev pub text_tcp : List ℕ
text_tcp = 116 ∷ 99 ∷ 112 ∷ []

abbrev pub text_udp : List ℕ
text_udp = 117 ∷ 100 ∷ 112 ∷ []

-- `!= NULL`
abbrev pub is_found : Option (List ℕ) → Bool
is_found none = false
is_found (some text) = true

unfoldable pub is_ipv6 : List ℕ → Bool
is_ipv6 ip = is_found (strchr ip 58)

-- bind_port_start and bind_port_end: a port given alone is both.
unfoldable pub bind_port : Option ℕ → ℕ → ℕ
bind_port none range_end = range_end
bind_port (some port) range_end = port

-- The `int` that holds a port has 32 bits; one that is negative is a word of 2^31 or more.
unfoldable pub port_number : ℕ → Option ℕ
port_number value = let port = value % 2 ^ 32 in if leb port 65535 then some port else none

-- ip_bits, from the text after the slash when there is one.
unfoldable pub mask_bits : (List ℕ → ℕ) → ℕ → Option (List ℕ) → Option ℕ
mask_bits atoi full none = some full
mask_bits atoi full (some cidr_slash) =
    let req_ip_bits = atoi (drop 1 cidr_slash) % 2 ^ 32 in
    if ltb full req_ip_bits then none else some req_ip_bits

unfoldable pub proto_number : List ℕ → Option ℕ
proto_number proto =
    if same_text proto text_tcp
    then some ipproto_tcp
    else if same_text proto text_udp
    then some ipproto_udp
    else none

-- The address in the zeroed union of 16 bytes.
abbrev pub in_union : List ℕ → List ℕ
in_union addr = take 16 (addr ++ replicate 16 0)

-- The body of the loop over the binds, for a bind that the JSON array has.
unfoldable pub bind_entry_of :
    (ℕ → List ℕ → Option (List ℕ)) → (List ℕ → ℕ) → BindJson → Option BindEntry
bind_entry_of inet_pton atoi bind = do
  bind_ip ← bind.ip
  bind_proto ← bind.proto
  start ← port_number (bind_port bind.port bind.port_start)
  last ← port_number (bind_port bind.port bind.port_end)
  bits ← mask_bits atoi (if is_ipv6 bind_ip then 128 else 32) (strchr bind_ip 47)
  addr ← inet_pton (if is_ipv6 bind_ip then family_ipv6 else family_ipv4) (cut_at bind_ip 47)
  number ← proto_number bind_proto
  some (record {
    inet_family = if is_ipv6 bind_ip then family_ipv6 else family_ipv4;
    ip = in_union addr;
    ip_bits = bits;
    port_start = start;
    port_end = last;
    ipproto = number;
  })

-- The entry that is zeroed and not filled in.
abbrev pub empty_entry : BindEntry
empty_entry = record {
  inet_family = 0;
  ip = replicate 16 0;
  ip_bits = 0;
  port_start = 0;
  port_end = 0;
  ipproto = 0;
}

-- The loop over the `slots` entries that are still to be written; `max_num_binds` at the start.
unfoldable pub build_binds :
    (ℕ → List ℕ → Option (List ℕ))
    → (List ℕ → ℕ)
    → (slots : ℕ) → List BindJson
    → Option (List BindEntry)
build_binds inet_pton atoi zero binds = some []
build_binds inet_pton atoi (suc slots) [] = do
  rest ← build_binds inet_pton atoi slots []
  some (empty_entry ∷ rest)
build_binds inet_pton atoi (suc slots) (bind ∷ binds) = do
  entry ← bind_entry_of inet_pton atoi bind
  rest ← build_binds inet_pton atoi slots binds
  some (entry ∷ rest)
