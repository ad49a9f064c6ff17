-- ===== src/Utils/Config.antt =====
-- `LoadConfig` of internal/utils/utils.go. Reading the file, the decoding of its JSON and the SDK's
-- chain configurations are arguments.
use d8x_etherfi.Base.{ℕ, List, Text, Result, ok, err}
use d8x_etherfi.Base.Int.{ℤ, int64}
use d8x_etherfi.Chain.{Address}

pub record ConfigFile : Type 0 where
  pub chain_id : ℤ
  pub pool_id : ℤ
  pub genesis : ℕ
  pub rpc_urls : List Text
  pub rpc_urls_fltr : List Text

-- `Config` embeds the file.
pub record Config : Type 0 where
  pub config_file : ConfigFile
  pub perp_addr : Address

-- `os.ReadFile`, `json.Unmarshal` and the proxy address of `config.GetDefaultChainConfigFromId`.
pub record Files (Bytes : Type 0) : Type 0 where
  pub read_file : Text → Result Bytes
  pub unmarshal : Bytes → Result ConfigFile
  pub default_proxy : ℤ → Result Address

module _ {Bytes : Type 0} (files : Files Bytes) where
  abbrev pub with_proxy : ConfigFile → Result Address → Result Config
  with_proxy conf (err e) = err e
  with_proxy conf (ok proxy) = ok (record { config_file = conf; perp_addr = proxy })

  abbrev pub with_file : Result ConfigFile → Result Config
  with_file (err e) = err e
  with_file (ok conf) = with_proxy conf (files.default_proxy (int64 conf.chain_id))

  abbrev pub with_data : Result Bytes → Result Config
  with_data (err e) = err e
  with_data (ok bytes) = with_file (files.unmarshal bytes)

  unfoldable pub load_config : Text → Result Config
  load_config file_path = with_data (files.read_file file_path)
