-- ===== src/BuildConfig/BindTests.antt =====
-- One backend and two binds, with an `inet_pton` that knows three texts and an `atoi` for digits.
use glb_director.BuildConfig.Binds.{
  BindJson, same_text, text_tcp, text_udp, build_binds, bind_entry_of, port_number, ipproto_tcp,
  ipproto_udp, is_ipv6, mask_bits, empty_entry, strchr, proto_number, bind_port, cut_at,
}
use glb_director.BuildConfig.Backends.{
  BackendJson, text_filling, text_inactive, build_backends, backend_entry_of, state_number,
  empty_backend,
}
use glb_director.BuildConfig.Errors.{build_binds_iff, IsAcceptable, Succeeds}
use glb_director.BuildConfig.Accepted.{build_table-accepted, table_as_read}
use glb_director.FwdConfig.Check.{check_table, check_binds}
use glb_director.BuildConfig.BindLaws.{IsUsable, as_read, build_binds-accepted}
use glb_director.Base.{
  List, some, Option, ◌∷◌, length, ℕ, true, ◌++◌, ◌^◌, replicate, [], if◌then◌else◌, ◌*◌, false,
  ◌-◌, ◌==◌, ◌+◌, none, ◌≡◌, ◌&&◌, ◌↔◌, All, refl, ◌<◌, take, ◌≤◌, map, arith,
}
use glb_director.BuildConfig.{
  BindEntry, BackendEntry, family_ipv4, family_ipv6, SortableBackend, state_filling,
  state_draining_inactive, health_up, health_down,
}
use glb_director.FwdConfig.{fmt_max_num_binds, fmt_max_num_backends}

-- 10.0.0.1
abbrev text_ten : List ℕ
text_ten = 49 ∷ 48 ∷ 46 ∷ 48 ∷ 46 ∷ 48 ∷ 46 ∷ 49 ∷ []

-- fd::
abbrev text_fd : List ℕ
text_fd = 102 ∷ 100 ∷ 58 ∷ 58 ∷ []

abbrev inet_pton : ℕ → List ℕ → Option (List ℕ)
inet_pton family text =
    if family == 1 && same_text text text_ten
    then some (10 ∷ 0 ∷ 0 ∷ 1 ∷ [])
    else if family == 2 && same_text text text_fd
    then some (0 ∷ 0xfd ∷ replicate 14 0)
    else none

abbrev digits : List ℕ → ℕ → ℕ
digits [] n = n
digits (c ∷ cs) n = digits cs (10 * n + (c - 48))

abbrev atoi : List ℕ → ℕ
atoi text = digits text 0

abbrev backends : List BackendJson
backends =
    record { ip = some text_ten; state = some text_filling; healthy = true }
    ∷ record { ip = some text_fd; state = some text_inactive; healthy = false }
    ∷ []

-- 10.0.0.1/24 for TCP on port 80, and fd::/64 for UDP on ports 8000 to 9000.
abbrev tcp_bind : BindJson
tcp_bind = record {
  ip = some (text_ten ++ 47 ∷ 50 ∷ 52 ∷ []);
  proto = some text_tcp;
  port = some 80;
  port_start = 0;
  port_end = 0;
}

abbrev udp_bind : BindJson
udp_bind = record {
  ip = some (text_fd ++ 47 ∷ 54 ∷ 52 ∷ []);
  proto = some text_udp;
  port = none;
  port_start = 8000;
  port_end = 9000;
}

abbrev wide_bind : BindJson
wide_bind = record tcp_bind { ip = some (text_ten ++ 47 ∷ 51 ∷ 51 ∷ []) }

abbrev negative_bind : BindJson
negative_bind = record tcp_bind { port = some (2 ^ 64 - 1) }

abbrev backends_result : Option (List BackendEntry × List SortableBackend)
backends_result = build_backends inet_pton fmt_max_num_backends 0 backends

abbrev binds_result : Option (List BindEntry)
binds_result = build_binds inet_pton atoi fmt_max_num_binds (tcp_bind ∷ udp_bind ∷ [])

abbrev first_backend : BackendEntry
first_backend = record {
  inet_family = family_ipv4;
  ip = 10 ∷ 0 ∷ 0 ∷ 1 ∷ replicate 12 0;
  state = state_filling;
  health = health_up;
}

abbrev second_backend : BackendEntry
second_backend = record {
  inet_family = family_ipv6;
  ip = 0 ∷ 0xfd ∷ replicate 14 0;
  state = state_draining_inactive;
  health = health_down;
}

abbrev first_bind : BindEntry
first_bind = record {
  inet_family = family_ipv4;
  ip = 10 ∷ 0 ∷ 0 ∷ 1 ∷ replicate 12 0;
  ip_bits = 24;
  port_start = 80;
  port_end = 80;
  ipproto = ipproto_tcp;
}

abbrev second_bind : BindEntry
second_bind = record {
  inet_family = family_ipv6;
  ip = 0 ∷ 0xfd ∷ replicate 14 0;
  ip_bits = 64;
  port_start = 8000;
  port_end = 9000;
  ipproto = ipproto_udp;
}

-- The inactive backend is written, and no row may name it.
built_backends :
    backends_result
    ≡ some (
      first_backend ∷ second_backend ∷ replicate 254 empty_backend,
      record { index = 0; hash = 0; backend = first_backend } ∷ [],
    )
unfolding build_backends backend_entry_of state_number is_ipv6 strchr same_text
built_backends = refl

built_binds : binds_result ≡ some (first_bind ∷ second_bind ∷ replicate 254 empty_entry)
unfolding build_binds bind_entry_of port_number mask_bits proto_number bind_port is_ipv6 strchr
    same_text cut_at
built_binds = refl

mask_too_long : build_binds inet_pton atoi 256 (wide_bind ∷ []) ≡ none
unfolding build_binds bind_entry_of port_number mask_bits bind_port is_ipv6 strchr
mask_too_long = refl

port_below_zero : build_binds inet_pton atoi 256 (negative_bind ∷ []) ≡ none
unfolding build_binds bind_entry_of port_number mask_bits bind_port is_ipv6 strchr
port_below_zero = refl

build_table-accepted_example :
    (check_table (
        table_as_read backends
          (first_backend ∷ second_backend ∷ replicate 254 empty_backend)
          (tcp_bind ∷ udp_bind ∷ [])
          (first_bind ∷ second_bind ∷ replicate 254 empty_entry)
          []
          [])
      ≡ 0)
    ↔ ((0 < length backends)
        × (length backends ≤ 256)
        × (0 < length (tcp_bind ∷ udp_bind ∷ []))
        × (length (tcp_bind ∷ udp_bind ∷ []) ≤ 256))
build_table-accepted_example =
    build_table-accepted inet_pton atoi backends (tcp_bind ∷ udp_bind ∷ []) _ _ [] [] built_backends
      built_binds (omega arith) (omega arith)

build_binds-accepted_example :
    (length (first_bind ∷ second_bind ∷ replicate 254 empty_entry) ≡ fmt_max_num_binds)
    × All IsUsable (
        take
          (length (tcp_bind ∷ udp_bind ∷ []))
          (map as_read (first_bind ∷ second_bind ∷ replicate 254 empty_entry)))
    × (check_binds
          (take
            (length (tcp_bind ∷ udp_bind ∷ []))
            (map as_read (first_bind ∷ second_bind ∷ replicate 254 empty_entry)))
          []
        ≡ 0)
build_binds-accepted_example =
    build_binds-accepted inet_pton atoi (tcp_bind ∷ udp_bind ∷ []) _ [] built_binds tt

-- The second bind has a mask that is too long, so the build stops.
build_binds_iff_example :
    Succeeds (build_binds inet_pton atoi fmt_max_num_binds (tcp_bind ∷ wide_bind ∷ []))
    ↔ All (IsAcceptable inet_pton atoi) (take fmt_max_num_binds (tcp_bind ∷ wide_bind ∷ []))
build_binds_iff_example = build_binds_iff inet_pton atoi (tcp_bind ∷ wide_bind ∷ [])
