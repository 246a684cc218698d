-- ===== src/Config.antt =====
-- config.h and config.cpp of r-nat-s and r-nat-c, with what deps/common/xmlserializer.h does for them.
-- The two programs differ in the names of two sections and in two attributes of an address, which
-- only r-nat-c reads. rapidxml, and the extraction of numbers from a stream, are the parameter `xml`.
use Prim.Native.String.{String}
use r_nat.Common.{
  ℕ, ◌*◌, ◌%◌, ◌^◌, Option, none, some, List, [], ◌∷◌, Bool, true, false, map, if◌then◌else◌,
}
use r_nat.Protocol.{Bytes}
use r_nat.Text.{same_text}
use r_nat.Relay.State.{LoadPolicy}

-- The types of the numbers: uint32_t, and int, which stands here by its 32 bits.
pub data NumberType : Type 0 where
  uint32 int32 : NumberType

-- `extract` is `iss >> v` of FromString: from the text and the value that v has, the value that it has
-- then. An empty text leaves v as it is. `document` gives the root of the file that has the name, or none where it cannot be read or parsed;
-- `nodes` walks first_node and next_sibling.
pub record Xml : Type 1 where
  pub Node : Type 0
  pub document : Bytes → Option (String → Option Node)
  pub first_attribute : Node → String → Option Bytes
  pub nodes : Node → String → List Node
  pub extract : NumberType → Bytes → ℕ → ℕ

pub record AddressInfo : Type 0 where
  pub address : Bytes
  pub port : Bytes
  pub service_port : Bytes
  pub concurrency : ℕ

pub record System : Type 0 where
  pub load_policy : Bytes
  pub recv_buf_size : ℕ
  pub max_packet_size : ℕ
  pub queue_limit : ℕ
  pub tcp_send_no_delay : ℕ
  pub tcp_connect_timeout : ℕ
  pub packet_defragment : ℕ

pub record Config : Type 0 where
  pub system : System
  pub locals : List AddressInfo
  pub remotes : List AddressInfo

abbrev pub default_address : AddressInfo
default_address = record { address = []; port = []; service_port = []; concurrency = 1 }

-- "IP" is 73 and 80.
abbrev pub default_system : System
default_system = record {
  load_policy = 73 ∷ 80 ∷ [];
  recv_buf_size = 4096;
  max_packet_size = 1024 * 110;
  queue_limit = 10;
  tcp_send_no_delay = 1;
  tcp_connect_timeout = 30;
  packet_defragment = 1;
}

-- LoadPolicy(): "SEQ" is 83, 69 and 81.
unfoldable pub load_policy : System → LoadPolicy
load_policy s =
    if same_text s.load_policy (83 ∷ 69 ∷ 81 ∷ []) then LoadPolicy.by_seq else LoadPolicy.by_ip

-- What init gives: false, true with the configuration, or a call through the null root of a document
-- whose root has another name.
pub data Loading : Type 0 where
  refused crashed : Loading
  ready : Config → Loading

abbrev pub is_empty : List AddressInfo → Bool
is_empty [] = true
is_empty (a ∷ others) = false

module _ (xml : Xml) where
  open xml use {Node, document, first_attribute, nodes, extract}

  -- handle_item for a text and for a number: an attribute that is not there leaves the value; a number
  -- has 32 bits.
  abbrev text_item : Node → String → Bytes → Bytes
  text_item n name old = elim (first_attribute n name) [ none ↦ old | some value ↦ value ]

  abbrev number_item : NumberType → Node → String → ℕ → ℕ
  number_item t n name old = elim (first_attribute n name) [
    | none ↦ old
    | some value ↦ extract t value old % 2 ^ 32
  ]

  unfoldable pub read_address : Node → AddressInfo
  read_address n = record {
    address = text_item n "address" [];
    port = text_item n "port" [];
    service_port = text_item n "service_port" [];
    concurrency = number_item uint32 n "concurrency" 1;
  }

  unfoldable pub read_system : System → Node → System
  read_system s n = record {
    load_policy = text_item n "load_policy" s.load_policy;
    recv_buf_size = number_item uint32 n "recv_buf_size" s.recv_buf_size;
    max_packet_size = number_item uint32 n "max_packet_size" s.max_packet_size;
    queue_limit = number_item uint32 n "queue_limit" s.queue_limit;
    tcp_send_no_delay = number_item int32 n "tcp_send_no_delay" s.tcp_send_no_delay;
    tcp_connect_timeout = number_item uint32 n "tcp_connect_timeout" s.tcp_connect_timeout;
    packet_defragment = number_item int32 n "packet_defragment" s.packet_defragment;
  }

  -- handle_node: the first node of the name, if there is one.
  abbrev read_first_system : List Node → System
  read_first_system [] = default_system
  read_first_system (n ∷ ns) = read_system default_system n

  abbrev read_first_group : List Node → List AddressInfo
  read_first_group [] = []
  read_first_group (n ∷ ns) = map read_address (nodes n "node")

  unfoldable pub relay_config : Node → Config
  unfolding read_address read_system
  relay_config root = record {
    system = read_first_system (nodes root "system");
    locals = read_first_group (nodes root "local");
    remotes = [];
  }

  unfoldable pub agent_config : Node → Config
  unfolding read_address read_system
  agent_config root = record {
    system = read_first_system (nodes root "system");
    locals = read_first_group (nodes root "service");
    remotes = read_first_group (nodes root "remote");
  }

  -- FromFile, and what follows it.
  abbrev load : (Node → Loading) → Option (String → Option Node) → Loading
  load accept none = refused
  load accept (some root) = elim (root "config") [ none ↦ crashed | some n ↦ accept n ]

  -- ConfigManager::init of r-nat-s.
  unfoldable pub relay_init : Bytes → Loading
  unfolding relay_config
  relay_init file =
      load (λ n. let c = relay_config n in if is_empty c.locals then refused else ready c)
        (document file)

  -- ConfigManager::init of r-nat-c.
  unfoldable pub agent_init : Bytes → Loading
  unfolding agent_config
  agent_init file =
      load
        (λ n.
          let c = agent_config n in
          if is_empty c.remotes then refused else if is_empty c.locals then refused else ready c)
        (document file)
