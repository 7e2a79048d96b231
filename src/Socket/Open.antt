-- ===== src/Socket/Open.antt =====
-- What `rx_udp_create` opens and closes.
use native.Mathlib.Numerals.{add-one}
use obs_st.Base.{
  refl, ◌+◌, ◌≡◌, arith, true, Option, none, some, Returns, ok, Bytes, Option-cases, inl, inr,
  Bool-cases, if◌then◌else◌, ℕ, ◌==◌, ◌∙◌, ap, pos, sym, [], ◌∷◌, negsuc, ltb, ◌^◌, ◌-◌,
}
use obs_st.Resources.{Held, close_socket}
use obs_st.Socket.{
  Net, Socket, join_group, named_interface, Mreq, interface_ip, Config, rx_udp_create,
  default_socket_buf, to_int32, default_port,
}

close_opened : (held : Held) → close_socket (record held { sockets = held.sockets + 1 }) ≡ ok held
close_opened held = rw add-one

-- The interface on which to join: any, which is 0, where none or an empty name is configured, and the one
-- that `inet_addr` reads in the name otherwise.
abbrev pub IsInterface : Net → Option Bytes → ℕ → Type 0
IsInterface net none ip = ip ≡ 0
IsInterface net (some []) ip = ip ≡ 0
IsInterface net (some (c ∷ name)) ip = net.inet_addr (c ∷ name) ≡ some ip

interface_ip-IsInterface :
    (net : Net) (interface_addr : Option Bytes) (ip : ℕ)
    → interface_ip net (named_interface interface_addr) ≡ some ip
    → IsInterface net interface_addr ip
interface_ip-IsInterface net none ip e = cc
interface_ip-IsInterface net (some []) ip e = cc
interface_ip-IsInterface net (some (c ∷ name)) ip e = e

-- The group as `inet_addr` reads it, and the interface on which it was joined.
abbrev pub IsGroup : Net → Bytes → Option Bytes → Mreq → Type 0
IsGroup net multicast_addr interface_addr group =
    (net.inet_addr multicast_addr ≡ some group.multiaddr)
    × IsInterface net interface_addr group.interface
    × (net.join_ok ≡ true)

-- With a socket one socket and one membership more are held; without one, what was held before.
abbrev pub Opens : (Socket → Type 0) → Held → Option Socket × Held → Type 0
Opens P held (none, held') = held' ≡ held
Opens P held (some s, held') =
    P s × (held' ≡ record held { sockets = held.sockets + 1; memberships = held.memberships + 1 })

module _ (net : Net) (multicast_addr : Bytes) (interface_addr : Option Bytes) (s : Socket)
    (held : Held) where
  abbrev opened : Held
  opened = record held { sockets = held.sockets + 1 }

  join_group-Opens : Returns (join_group net multicast_addr interface_addr s opened) (
      Opens
        (λ s'.
          (s' ≡ record s { group = s'.group }) × IsGroup net multicast_addr interface_addr s'.group)
        held)
  unfolding join_group
  join_group-Opens = elim (Option-cases (net.inet_addr multicast_addr)) [
    | inl unknown ↦ ((none, held), ground (arith, close_opened held), refl)
    | inr (ip, known) ↦ elim (Option-cases (interface_ip net (named_interface interface_addr))) [
      | inl bad ↦ ((none, held), ground (arith, close_opened held), refl)
      | inr (iface, good) ↦ elim (Bool-cases net.join_ok) [
        | inr refused ↦ ((none, held), ground (arith, close_opened held), refl)
        | inl joined ↦ (
          (
            some (record s { group = record { multiaddr = ip; interface = iface } }),
            record held { sockets = held.sockets + 1; memberships = held.memberships + 1 },
          ),
          ground arith,
          ((refl, (known, interface_ip-IsInterface net interface_addr iface good, joined)), refl),
        )
      ]
    ]
  ]

module _ {X : Type 0} (net : Net) (config : Config X) where
  -- A socket that is bound, a member of the configured group, and set up from the configuration, with
  -- the port 20000 and 128 MiB of buffer in place of 0; `setsockopt` takes the size as an `int`.
  pub record IsOpened (s : Socket) : Type 0 where
    pub handle : net.socket ≡ some s.handle
    pub bound : net.bind_ok ≡ true
    pub port : s.port ≡ (if config.port == 0 then 20000 else config.port)
    pub rcvbuf : s.rcvbuf ≡ (
        if config.socket_buffer_size == 0
        then pos 134217728
        else (if ltb config.socket_buffer_size (2 ^ 31)
            then pos config.socket_buffer_size
            else negsuc (2 ^ 32 - config.socket_buffer_size - 1)))
    pub multicast : Bytes
    pub named : config.multicast_addr ≡ some multicast
    pub group : IsGroup net multicast config.interface_addr s.group

  abbrev fresh_socket : ℕ → Socket
  fresh_socket handle = record {
    handle = handle;
    rcvbuf =
        if config.socket_buffer_size == 0
        then pos default_socket_buf
        else to_int32 config.socket_buffer_size;
    port = if config.port == 0 then default_port else config.port;
    group = record { multiaddr = 0; interface = 0 };
  }

  -- `rx_udp_create` returns whatever the system answers. A socket that it returns is bound, has joined
  -- the configured group, on the configured interface or on any if none is named, and is the one socket and membership held in addition; if it returns
  -- none, it holds what it held before, so every failure behind `socket` has closed the socket.
  pub udp_create-Opens :
      (held : Held) → Returns (rx_udp_create net (some config) held) (Opens IsOpened held)
  unfolding rx_udp_create
  udp_create-Opens held = elim (Option-cases config.multicast_addr) [
    | inl unnamed ↦ ((none, held), ground arith, refl)
    | inr (multicast, named) ↦ elim (Option-cases net.socket) [
      | inl no_socket ↦ ((none, held), ground arith, refl)
      | inr (handle, created) ↦ elim (Bool-cases net.bind_ok) [
        | inr refused ↦ ((none, held), ground (arith, close_opened held), refl)
        | inl bound ↦
            let (r, e, opens) =
              join_group-Opens net multicast config.interface_addr (fresh_socket handle) held in
            (r, ground arith, settle handle multicast created bound named r opens)
      ]
    ]
  ]
    where
      settle :
          (handle : ℕ) (multicast : Bytes)
          → net.socket ≡ some handle
          → net.bind_ok ≡ true
          → config.multicast_addr ≡ some multicast
          → (r : Option Socket × Held)
          → Opens
              (λ s'.
                (s' ≡ record (fresh_socket handle) { group = s'.group })
                × IsGroup net multicast config.interface_addr s'.group)
              held
              r
          → Opens IsOpened held r
      settle handle multicast created bound named (none, held') opens = opens
      settle handle multicast created bound named (some s, held') opens = (
        record {
          handle = created ∙ ap (λ t. some t.handle) (sym opens.0.0);
          bound = bound;
          port = ap (λ t. t.port) opens.0.0;
          rcvbuf = ap (λ t. t.rcvbuf) opens.0.0;
          multicast = multicast;
          named = named;
          group = opens.0.1;
        },
        opens.1,
      )
