-- ===== src/Socket.antt =====
-- libst2110rx/src/rx_socket.c: the multicast socket of a receiver.
pub mod Open
use obs_st.Base.{
  ℕ, ◌+◌, Bool, true, false, not, ◌&&◌, Option, none, some, [], ◌∷◌, Bytes, Exec, ok, ◌>>=◌, ◌==◌,
  ltb, if◌then◌else◌, ℤ, pos, negsuc, ◌^◌, ◌-◌,
}
use obs_st.Types.{Config, default_port, default_socket_buf}
use obs_st.Resources.{Held, close_socket, drop_membership}

-- The system's answers: `socket`, `bind`, `inet_addr` (`none` is INADDR_NONE) and the call of
-- `setsockopt` that joins the group. The other calls are made for their effect alone.
pub record Net : Type 0 where
  pub socket : Option ℕ
  pub bind_ok : Bool
  pub inet_addr : Bytes → Option ℕ
  pub join_ok : Bool

-- `struct ip_mreq`
pub record Mreq : Type 0 where
  pub multiaddr : ℕ
  pub interface : ℕ

-- A socket with what the code has set on it.
pub record Socket : Type 0 where
  pub handle : ℕ
  pub rcvbuf : ℤ
  pub port : ℕ
  pub group : Mreq

-- `(int)w` for a word of 32 bits.
abbrev pub to_int32 : ℕ → ℤ
to_int32 w = if ltb w (2 ^ 31) then pos w else negsuc (2 ^ 32 - w - 1)

abbrev pub inaddr_any : ℕ
inaddr_any = 0

-- `config->interface_addr && config->interface_addr[0] != '\0'`
abbrev pub named_interface : Option Bytes → Option Bytes
named_interface none = none
named_interface (some []) = none
named_interface (some (c ∷ s)) = some (c ∷ s)

-- The interface to join on; `none` is a name that `inet_addr` refuses.
abbrev pub interface_ip : Net → Option Bytes → Option ℕ
interface_ip net none = some inaddr_any
interface_ip net (some name) = net.inet_addr name

-- The part behind `bind`, for a socket that is open: the group and the interface are looked up and
-- joined, and every failure closes the socket.
unfoldable pub join_group : Net → Bytes → Option Bytes → Socket → Held → Exec (Option Socket × Held)
join_group net multicast_addr interface_addr s held = elim (net.inet_addr multicast_addr) [
  | none ↦ close_socket held >>= λ h. ok (none, h)
  | some mcast_ip ↦ elim (interface_ip net (named_interface interface_addr)) [
    | none ↦ close_socket held >>= λ h. ok (none, h)
    | some iface_ip ↦
        if net.join_ok
        then ok (
          some (record s { group = record { multiaddr = mcast_ip; interface = iface_ip } }),
          record held { memberships = held.memberships + 1 },
        )
        else close_socket held >>= λ h. ok (none, h)
  ]
]

-- `rx_udp_create`; `none` is RX_INVALID_SOCKET.
unfoldable pub rx_udp_create {ℓ} :
    {X : Type ℓ} → Net → Option (Config X) → Held → Exec (Option Socket × Held)
rx_udp_create net none held = ok (none, held)
rx_udp_create net (some config) held = elim config.multicast_addr [
  | none ↦ ok (none, held)
  | some multicast_addr ↦ elim net.socket [
    | none ↦ ok (none, held)
    | some handle ↦
        let opened = record held { sockets = held.sockets + 1 } in
        let s : Socket = record {
          handle = handle;
          rcvbuf =
              if config.socket_buffer_size == 0
              then pos default_socket_buf
              else to_int32 config.socket_buffer_size;
          port = if config.port == 0 then default_port else config.port;
          group = record { multiaddr = 0; interface = 0 };
        } in
        if net.bind_ok
        then join_group net multicast_addr config.interface_addr s opened
        else close_socket opened >>= λ h. ok (none, h)
  ]
]

-- `rx_udp_destroy`, at a call with `mreq` not NULL.
unfoldable pub rx_udp_destroy : Option Socket → Held → Exec Held
rx_udp_destroy none held = ok held
rx_udp_destroy (some s) held = drop_membership held >>= close_socket
