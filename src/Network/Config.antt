-- ===== src/Network/Config.antt =====
-- The configurations of src/network/driver.rs with their builders, and what a user may give as a
-- remote address, src/network/remote_addr.rs.
use message_io.Prelude.{ℕ, ◌≡◌, refl, Option, none, some, List, [], Option-cases, inl, inr}
use message_io.Network.Messages.{
  SocketAddr, RemoteAddr, socket, str, socket_addr, ConnectConfig, ListenConfig,
}

module _ (K : Type 0) where
  -- `Default`.
  unfoldable pub default_connect_config : ConnectConfig K
  default_connect_config = record {
    bind_device_opt = none;
    source_address_opt = none;
    keepalive_opt = none;
  }

  unfoldable pub default_listen_config : ListenConfig K
  default_listen_config = record {
    bind_device_opt = none;
    keepalive_opt = none;
    cert_path = [];
    pri_key_path = [];
  }

module _ {K : Type 0} where
  unfoldable pub connect_with_bind_device : ConnectConfig K → List ℕ → ConnectConfig K
  connect_with_bind_device config device = record config { bind_device_opt = some device }

  unfoldable pub connect_with_keepalive : ConnectConfig K → K → ConnectConfig K
  connect_with_keepalive config keepalive = record config { keepalive_opt = some keepalive }

  unfoldable pub with_source_address : ConnectConfig K → SocketAddr → ConnectConfig K
  with_source_address config addr = record config { source_address_opt = some addr }

  unfoldable pub listen_with_bind_device : ListenConfig K → List ℕ → ListenConfig K
  listen_with_bind_device config device = record config { bind_device_opt = some device }

  unfoldable pub listen_with_keepalive : ListenConfig K → K → ListenConfig K
  listen_with_keepalive config keepalive = record config { keepalive_opt = some keepalive }

-- `RemoteAddr::string` panics, `none` here, on a socket address.
unfoldable pub string : RemoteAddr → Option (List ℕ)
string (socket _) = none
string (str text) = some text

-- `ToRemoteAddr` for strings; `parse` is the parser of the standard library.
unfoldable pub to_remote_addr : (List ℕ → Option SocketAddr) → List ℕ → RemoteAddr
to_remote_addr parse text = elim (parse text) [ none ↦ str text | some addr ↦ socket addr ]

-- A text is a remote address by socket exactly when it parses as one, and is kept as it is otherwise.
pub to_remote_addr-socket_addr :
    (parse : List ℕ → Option SocketAddr) (text : List ℕ)
    → (socket_addr (to_remote_addr parse text) ≡ parse text)
      × (parse text ≡ none → string (to_remote_addr parse text) ≡ some text)
unfolding to_remote_addr socket_addr string
to_remote_addr-socket_addr parse text = elim (Option-cases (parse text)) [
  | inl e ↦ rw (e, to_remote_addr) (refl, λ _. refl)
  | inr (addr, e) ↦ rw (e, to_remote_addr) (refl, λ h. cc)
]
