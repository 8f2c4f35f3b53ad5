-- ===== src/Bitcoin/Ingestion/Config.antt =====
-- ResolveBitcoinCoreRpcConfigDetails in src/Blocxxi/Bitcoin/ingestion.cpp: the configuration file, the
-- environment, the cookie. Paths are texts; the environment and the file system are parameters.
pub mod Cookies
pub mod Precedence
use mathlib.Core.Option
use blocxxi.Base.{
  ℕ, zero, suc, ◌+◌, ◌-◌, ◌*◌, ◌%◌, ◌^◌, [], ◌∷◌, ◌++◌, List, Bytes, text, String, ℤ, pos, negsuc,
  Bool, true, false, not, ◌||◌, Option, none, some, take, drop, is_empty, index_of, bytes_eq,
  if◌then◌else◌, Outcome, ok, ◌>>=◌,
}
use blocxxi.Base.Scan.{lines, stol}
use blocxxi.Bitcoin.Headers.{Network, mainnet, testnet, signet, regtest}
use blocxxi.Bitcoin.Ingestion.Json.{trim}
use blocxxi.Bitcoin.Ingestion.Observations.{RpcConnectionConfig, BitcoinCoreRpcConfig, value_or}

pub record ResolvedBitcoinCoreRpcConfig : Type 0 where
  pub config : BitcoinCoreRpcConfig
  pub config_path : Bytes
  pub config_file_loaded : Bool
  pub host_source : Bytes
  pub port_source : Bytes
  pub username_source : Bytes
  pub password_source : Bytes
  pub path_source : Bytes

-- What the code takes from outside: std::getenv, an ifstream's text, operator/ and parent_path.
pub record Surroundings : Type 0 where
  pub getenv : Bytes → Option Bytes
  pub read_file : Bytes → Option Bytes
  pub join : Bytes → Bytes → Bytes
  pub parent_path : Bytes → Bytes

-- ReadEnv: an empty value counts as none.
unfoldable pub nonempty : Option Bytes → Option Bytes
nonempty none = none
nonempty (some []) = none
nonempty (some (c ∷ s)) = some (c ∷ s)

unfoldable pub read_env : Surroundings → Bytes → Option Bytes
unfolding nonempty
read_env w name = nonempty (w.getenv name)

-- static_cast<std::uint16_t> of an int
unfoldable pub to_port : ℤ → ℕ
to_port (pos n) = n % 2 ^ 16
to_port (negsuc n) = (2 ^ 16 - (n + 1) % 2 ^ 16) % 2 ^ 16

unfoldable pub parse_port : Bytes → Outcome ℕ
unfolding stol to_port
parse_port value = stol (2 ^ 31) value >>= λ i. ok (to_port i)

-- The settings of one kind, with the label of their source.
unfoldable pub set_host :
    Bytes → Bytes → ResolvedBitcoinCoreRpcConfig → ResolvedBitcoinCoreRpcConfig
set_host value source r = record r {
  config = record r.config { connection = record r.config.connection { host = value } };
  host_source = source;
}

unfoldable pub set_port :
    Bytes → Bytes → ResolvedBitcoinCoreRpcConfig → Outcome ResolvedBitcoinCoreRpcConfig
unfolding parse_port
set_port value source r = parse_port value >>= λ n. ok (record r {
  config = record r.config { connection = record r.config.connection { port = n } };
  port_source = source;
})

unfoldable pub set_username :
    Bytes → Bytes → ResolvedBitcoinCoreRpcConfig → ResolvedBitcoinCoreRpcConfig
set_username value source r = record r {
  config = record r.config { connection = record r.config.connection { username = value } };
  username_source = source;
}

unfoldable pub set_password :
    Bytes → Bytes → ResolvedBitcoinCoreRpcConfig → ResolvedBitcoinCoreRpcConfig
set_password value source r = record r {
  config = record r.config { connection = record r.config.connection { password = value } };
  password_source = source;
}

unfoldable pub set_path :
    Bytes → Bytes → ResolvedBitcoinCoreRpcConfig → ResolvedBitcoinCoreRpcConfig
set_path value source r = record r {
  config = record r.config { connection = record r.config.connection { path = value } };
  path_source = source;
}

-- The variables of the loop over the lines of the file.
pub record Loading : Type 0 where
  pub resolved : ResolvedBitcoinCoreRpcConfig
  pub data_directory : Bytes
  pub cookie_file : Option Bytes

-- ApplyConfigValue
unfoldable pub apply_config_value : Loading → Bytes → Bytes → Bytes → Outcome Loading
unfolding text bytes_eq set_host set_port set_username set_password
apply_config_value l key value label =
    if bytes_eq key (text "rpcconnect")
    then ok (record l { resolved = set_host value label l.resolved })
    else if bytes_eq key (text "rpcport")
    then (set_port value label l.resolved >>= λ r. ok (record l { resolved = r }))
    else if bytes_eq key (text "rpcuser")
    then ok (record l { resolved = set_username value label l.resolved })
    else if bytes_eq key (text "rpcpassword")
    then ok (record l { resolved = set_password value label l.resolved })
    else if bytes_eq key (text "rpcbind")
    then ok (record l { resolved = set_host value label l.resolved })
    else if bytes_eq key (text "datadir")
    then ok (record l { data_directory = value })
    else if bytes_eq key (text "rpccookiefile")
    then ok (record l { cookie_file = some value })
    else ok l

-- A line up to its first '#'.
unfoldable pub strip_comment : Bytes → Bytes
unfolding index_of
strip_comment line = elim (index_of b'#' line) [ none ↦ line | some comment ↦ take comment line ]

-- A line from its separator on.
unfoldable pub apply_setting : Loading → Bytes → Bytes → Option ℕ → Outcome Loading
unfolding trim apply_config_value
apply_setting l label line none = ok l
apply_setting l label line (some separator) =
    let key = trim (take separator line) in
    let value = trim (drop (separator + 1) line) in
    let applied = apply_config_value l key value label in
    if is_empty key || is_empty value then ok l else applied

unfoldable pub apply_lines : Bytes → List Bytes → Loading → Outcome Loading
unfolding strip_comment index_of apply_setting
apply_lines label [] l = ok l
apply_lines label (line ∷ rest) l =
    apply_setting l label (strip_comment line) (index_of b'=' (strip_comment line)) >>= λ m.
    apply_lines label rest m

-- The part for the file, if it could be opened.
unfoldable pub load_file : Bytes → Option Bytes → Loading → Outcome Loading
unfolding text lines apply_lines
load_file path none l = ok l
load_file path (some s) l =
    apply_lines (text "bitcoin.conf:" ++ path) (lines s)
      (record l { resolved = record l.resolved { config_file_loaded = true } })

unfoldable pub label_env : Bytes → Bytes
unfolding text
label_env name = text "env:" ++ name

-- The settings that a variable overrides, if it is there.
unfoldable pub override :
    (Bytes → Bytes → ResolvedBitcoinCoreRpcConfig → ResolvedBitcoinCoreRpcConfig)
    → Bytes
    → Option Bytes
    → ResolvedBitcoinCoreRpcConfig
    → ResolvedBitcoinCoreRpcConfig
unfolding label_env
override set name none r = r
override set name (some value) r = set value (label_env name) r

unfoldable pub override_port :
    Bytes → Option Bytes → ResolvedBitcoinCoreRpcConfig → Outcome ResolvedBitcoinCoreRpcConfig
unfolding label_env set_port
override_port name none r = ok r
override_port name (some value) r = set_port value (label_env name) r

-- The five variables with the prefix BITCOIN or BLOCXXI.
unfoldable pub apply_env :
    Surroundings → Bytes → ResolvedBitcoinCoreRpcConfig → Outcome ResolvedBitcoinCoreRpcConfig
unfolding text read_env override override_port set_host set_username set_password set_path
apply_env w prefix r =
    let host = prefix ++ text "_RPC_HOST" in
    let port = prefix ++ text "_RPC_PORT" in
    let user = prefix ++ text "_RPC_USER" in
    let password = prefix ++ text "_RPC_PASSWORD" in
    let path = prefix ++ text "_RPC_PATH" in
    override_port port (read_env w port) (override set_host host (read_env w host) r) >>= λ s. ok (
      override set_path path (read_env w path) (
        override set_password password (read_env w password)
          (override set_username user (read_env w user) s)))

-- LoadCookie, from the text of the file on: the user and the password.
unfoldable pub cookie_of : List Bytes → Option (Bytes × Bytes)
unfolding index_of
cookie_of [] = none
cookie_of (line ∷ _) = Option.map (λ i. (take i line, drop (i + 1) line)) (index_of b':' line)

unfoldable pub load_cookie : Surroundings → Bytes → Option (Bytes × Bytes)
unfolding lines cookie_of
load_cookie w path = elim (w.read_file path) [ none ↦ none | some s ↦ cookie_of (lines s) ]

unfoldable pub label_cookie : Bytes → Bytes
unfolding text
label_cookie path = text "cookie:" ++ path

-- What a cookie fills in.
unfoldable pub use_cookie :
    Bytes → Bytes × Bytes → ResolvedBitcoinCoreRpcConfig → ResolvedBitcoinCoreRpcConfig
unfolding label_cookie set_username set_password
use_cookie path (user, password) r =
    let label = label_cookie path in
    let named = if is_empty r.config.connection.username then set_username user label r else r in
    if is_empty named.config.connection.password then set_password password label named else named

-- The loop over the places of a cookie: the first that has one is used.
unfoldable pub try_cookies :
    Surroundings → List Bytes → ResolvedBitcoinCoreRpcConfig → ResolvedBitcoinCoreRpcConfig
unfolding load_cookie use_cookie
try_cookies w [] r = r
try_cookies w (path ∷ paths) r = elim (load_cookie w path) [
  | none ↦ try_cookies w paths r
  | some cookie ↦ use_cookie path cookie r
]

unfoldable pub cookie_candidates : Surroundings → Bytes → Loading → List Bytes
unfolding text
cookie_candidates w path l =
    let last = w.join (w.parent_path path) (text ".cookie") ∷ [] in
    let behind =
      if is_empty l.data_directory then last else w.join l.data_directory (text ".cookie") ∷ last in
    elim l.cookie_file [ none ↦ behind | some file ↦ file ∷ behind ]

-- From the environment on.
unfoldable pub finish_config : Surroundings → Bytes → Loading → Outcome ResolvedBitcoinCoreRpcConfig
unfolding text apply_env try_cookies cookie_candidates
finish_config w path l = apply_env w (text "BITCOIN") l.resolved >>= λ r.
    apply_env w (text "BLOCXXI") r >>= λ s. ok (
      if is_empty s.config.connection.username || is_empty s.config.connection.password
      then try_cookies w (cookie_candidates w path l) s
      else s)

-- DefaultBitcoinCoreConfigPath
unfoldable pub network_directory : Surroundings → Network → Bytes → Bytes
unfolding text
network_directory w testnet root = w.join root (text "testnet3")
network_directory w signet root = w.join root (text "signet")
network_directory w regtest root = w.join root (text "regtest")
network_directory w mainnet root = root

unfoldable pub default_bitcoin_core_config_path : Surroundings → Network → Bytes
unfolding text read_env network_directory
default_bitcoin_core_config_path w network =
    let home = value_or (read_env w (text "HOME")) (text ".") in
    w.join (network_directory w network (w.join home (text ".bitcoin"))) (text "bitcoin.conf")

-- ResolvedBitcoinCoreRpcConfig { .config = base } at the path
unfoldable pub unresolved : BitcoinCoreRpcConfig → Bytes → Loading
unfolding text
unresolved base path = record {
  resolved = record {
    config = base;
    config_path = path;
    config_file_loaded = false;
    host_source = text "default";
    port_source = text "default";
    username_source = text "unset";
    password_source = text "unset";
    path_source = text "default";
  };
  data_directory = [];
  cookie_file = none;
}

unfoldable pub chosen_path : Surroundings → BitcoinCoreRpcConfig → Option Bytes → Bytes
unfolding default_bitcoin_core_config_path
chosen_path w base none = default_bitcoin_core_config_path w base.network
chosen_path w base (some path) = path

-- ResolveBitcoinCoreRpcConfigDetails
unfoldable pub resolve_bitcoin_core_rpc_config_details :
    Surroundings → BitcoinCoreRpcConfig → Option Bytes → Outcome ResolvedBitcoinCoreRpcConfig
unfolding chosen_path unresolved load_file finish_config
resolve_bitcoin_core_rpc_config_details w base config_path =
    let path = chosen_path w base config_path in
    load_file path (w.read_file path) (unresolved base path) >>= λ l. finish_config w path l
