-- ===== src/Model/Samples.antt =====
-- Records and a library of parsers for the concrete runs.
use th.Base.{ℕ, true, [], ◌∷◌, none, some}
use th.Base.Int.{pos}
use th.Base.Text.{Text, codes}
use th.Proto.Addr.{Addr, v4, prefix_from}
use th.Model.Types.{gre, wireguard, Spec, Tunnel}
use th.Model.Defaults.{Generator}
use th.Model.Library.{Library, other_public, other_private}

-- Every text is a key and its own public key; a port is always 51820.
abbrev pub library : Library
library = record {
  parse_key = λ s. some s;
  public_key_of = λ s. s;
  key_string = λ s. s;
  trim_space = λ s. s;
  split_host_port = λ s. some (s, s);
  atoi = λ s. some (pos 51820);
  parses_addr = λ s. true;
  parse_url = λ s. none;
  decode_base64 = λ s. none;
  parse_pkix_public_key = λ s. some other_public;
  decode_pem = λ s. none;
  parse_pkcs8_private_key = λ s. some other_private;
  sha256 = λ s. s;
}

abbrev no_spec : Spec
no_spec = record {
  gre_spec = none;
  vxlan_spec = none;
  wireguard_spec = none;
  amneziawg_spec = none;
  xfrm_static_spec = none;
  xfrm_ikev2_spec = none;
  srv6_spec = none;
  babel = none;
  mptcp = none;
}

abbrev underlay : ℕ → Addr
underlay n = v4 (192 ∷ 0 ∷ 2 ∷ n ∷ [])

abbrev gre_tunnel : Text → Text → Text → Tunnel
gre_tunnel id name interface = record {
  schema_version = pos 4;
  id = id;
  generation = 1;
  name = name;
  kind = gre;
  interface = interface;
  enabled = true;
  spec = record no_spec {
    gre_spec = some (record {
      local = underlay 1;
      remote = underlay 2;
      addresses = prefix_from (underlay 9) 32 ∷ [];
      mtu = pos 1476;
      ttl = 64;
    });
  };
  created_at = 1;
  updated_at = 2;
}

abbrev pub first_tunnel : Tunnel
first_tunnel =
    gre_tunnel (codes "00000000-0000-4000-8000-000000000001") (codes "paris") (codes "gre1")

abbrev pub second_tunnel : Tunnel
second_tunnel =
    gre_tunnel (codes "00000000-0000-4000-8000-000000000002") (codes "tokyo") (codes "gre2")

-- A WireGuard tunnel with a preshared key for one of its peers.
abbrev pub wireguard_tunnel : Tunnel
wireguard_tunnel = record first_tunnel {
  kind = wireguard;
  spec = record no_spec {
    wireguard_spec = some (record {
      private_key = codes "a";
      public_key = codes "a";
      listen_port = pos 51820;
      firewall_mark = pos 0;
      addresses = prefix_from (underlay 9) 32 ∷ [];
      mtu = pos 1420;
      route_allowed_ips = true;
      route_table = pos 0;
      peers =
          record {
            public_key = codes "b";
            preshared_key = codes "c";
            endpoint = codes "b:1";
            keepalive = pos 25;
            allowed_ips = prefix_from (underlay 3) 32 ∷ [];
          }
          ∷ record {
            public_key = codes "d";
            preshared_key = [];
            endpoint = [];
            keepalive = pos 0;
            allowed_ips = [];
          }
          ∷ [];
    });
  };
}

-- A random source that gives the same text to all who ask, and no numbers.
abbrev pub generator : Generator
generator = record {
  new_id = none;
  init_header = codes "1";
  response_header = codes "2";
  underload_header = codes "3";
  transport_header = codes "4";
  wire_guard_key = some (codes "r");
  spi_in = none;
  spi_out = none;
  encryption_in = λ n. none;
  encryption_out = λ n. none;
  authentication_in = λ n. none;
  authentication_out = λ n. none;
  psk = some (codes "r");
  key_pair = none;
}

-- Another one, that never gives anything but headers.
abbrev pub no_generator : Generator
no_generator = record generator { wire_guard_key = none; psk = none; init_header = codes "5" }
