-- ===== src/Client/Requests.antt =====
-- crates/client/src/client.rs and request_builder.rs, with the race, the urls and the requests of
-- utils.rs. `reqwest`, the parsers of urls and keys, and `select_ok` of the futures crate are the record
-- `Http`; sending one request with its retries is `send`, and once is `once`.
pub mod Answers
use mojave.Base.{ℕ, String, Option, none, some, List, [], ◌∷◌, map, Result, ok, err, map_err, ◌>>=◌}
use mojave.Client.{
  Error, custom, no_rpc_urls_configured, reqwest, serde_json, RetryConfig, default_config, secs,
  send_request_sequential,
}

-- `DEFAULT_TIMEOUT`
abbrev pub default_timeout : ℕ
default_timeout = secs 10

pub data Strategy : Type 0 where
  sequential race : Strategy

pub data MojaveRequestMethods : Type 0 where
  send_proof_input_method get_pending_job_ids_method get_proof_method : MojaveRequestMethods

pub record Http : Type 1 where
  pub F : Type 0
  pub HttpClient : Type 0
  pub SigningKey : Type 0
  pub Url : Type 0
  pub Json : Type 0
  pub to_string : F → String
  pub client_builder : ℕ → Result F HttpClient
  pub signing_key_from_str : String → Result F SigningKey
  pub url_parse : String → Result F Url
  -- the name of a method, as JSON
  pub method_to_string : MojaveRequestMethods → Result F String

pub record MojaveClientBuilder : Type 0 where
  pub sequencer_urls : List String
  pub full_node_urls : List String
  pub prover_urls : List String
  pub private_key : Option String
  pub timeout : ℕ
  pub retry_config : RetryConfig

pub record RpcRequest (Json : Type 0) : Type 0 where
  pub id : ℕ
  pub jsonrpc : String
  pub method : String
  pub params : Option (List Json)

unfoldable pub new : MojaveClientBuilder
new = record {
  sequencer_urls = [];
  full_node_urls = [];
  prover_urls = [];
  private_key = none;
  timeout = default_timeout;
  retry_config = default_config;
}

-- the setters of the builder
abbrev pub set_sequencer_urls : MojaveClientBuilder → List String → MojaveClientBuilder
set_sequencer_urls self urls = record self { sequencer_urls = urls }

abbrev pub set_full_node_urls : MojaveClientBuilder → List String → MojaveClientBuilder
set_full_node_urls self urls = record self { full_node_urls = urls }

abbrev pub set_prover_urls : MojaveClientBuilder → List String → MojaveClientBuilder
set_prover_urls self urls = record self { prover_urls = urls }

abbrev pub set_private_key : MojaveClientBuilder → String → MojaveClientBuilder
set_private_key self key = record self { private_key = some key }

abbrev pub set_timeout : MojaveClientBuilder → ℕ → MojaveClientBuilder
set_timeout self timeout = record self { timeout = timeout }

abbrev pub set_retry_config : MojaveClientBuilder → RetryConfig → MojaveClientBuilder
set_retry_config self config = record self { retry_config = config }

module _ (http : Http) where
  open http use {
    F, HttpClient, SigningKey, Url, Json, to_string, client_builder, signing_key_from_str,
    url_parse, method_to_string,
  }

  -- `MojaveClientInner`, which `MojaveClient` shares
  pub record MojaveClient : Type 0 where
    pub client : HttpClient
    pub sequencer_urls : List Url
    pub full_node_urls : List Url
    pub prover_urls : List Url
    pub retry_config : RetryConfig
    pub signing_key : Option SigningKey

  -- The first url that does not parse is the error.
  unfoldable pub parse_urls : List String → Result (Error F) (List Url)
  parse_urls [] = ok []
  parse_urls (url ∷ urls) = do
    parsed ← map_err (λ e. custom (to_string e)) (url_parse url)
    rest ← parse_urls urls
    ok (parsed ∷ rest)

  signing_key_of : Option String → Result (Error F) (Option SigningKey)
  signing_key_of none = ok none
  signing_key_of (some key) = do
    parsed ← map_err (λ e. custom (to_string e)) (signing_key_from_str key)
    ok (some parsed)

  unfoldable pub build : MojaveClientBuilder → Result (Error F) MojaveClient
  unfolding signing_key_of
  build self = do
    http_client ← map_err reqwest (client_builder self.timeout)
    signing_key ← signing_key_of self.private_key
    sequencers ← parse_urls self.sequencer_urls
    full_nodes ← parse_urls self.full_node_urls
    provers ← parse_urls self.prover_urls
    ok (record {
      client = http_client;
      sequencer_urls = sequencers;
      full_node_urls = full_nodes;
      prover_urls = provers;
      retry_config = self.retry_config;
      signing_key = signing_key;
    })

  pub record RequestBuilder : Type 0 where
    pub client : MojaveClient
    pub target_urls : Option (List Url)
    pub strategy : Strategy
    pub retry_config : Option RetryConfig

  unfoldable pub request : MojaveClient → RequestBuilder
  request client = record {
    client = client;
    target_urls = none;
    strategy = sequential;
    retry_config = none;
  }

  unfoldable pub with_sequencers : RequestBuilder → RequestBuilder
  with_sequencers self = record self { target_urls = some self.client.sequencer_urls }

  unfoldable pub with_full_nodes : RequestBuilder → RequestBuilder
  with_full_nodes self = record self { target_urls = some self.client.full_node_urls }

  unfoldable pub with_provers : RequestBuilder → RequestBuilder
  with_provers self = record self { target_urls = some self.client.prover_urls }

  unfoldable pub with_urls : List Url → RequestBuilder → RequestBuilder
  with_urls urls self = record self { target_urls = some urls }

  unfoldable pub with_strategy : Strategy → RequestBuilder → RequestBuilder
  with_strategy strategy self = record self { strategy = strategy }

  unfoldable pub with_retry_config : RetryConfig → RequestBuilder → RequestBuilder
  with_retry_config config self = record self { retry_config = some config }

  unfoldable pub effective_retry_config : RequestBuilder → RetryConfig
  effective_retry_config self = elim self.retry_config [
    | none ↦ self.client.retry_config
    | some config ↦ config
  ]

  targets : Option (List Url) → Result (Error F) (List Url)
  targets none = err no_rpc_urls_configured
  targets (some []) = err no_rpc_urls_configured
  targets (some (url ∷ urls)) = ok (url ∷ urls)

  unfoldable pub get_target_urls : RequestBuilder → Result (Error F) (List Url)
  unfolding targets
  get_target_urls self = targets self.target_urls

  unfoldable pub create_rpc_request :
      MojaveRequestMethods → Option (List Json) → Result (Error F) (RpcRequest Json)
  create_rpc_request method params = do
    name ← map_err serde_json (method_to_string method)
    ok (record { id = 1; jsonrpc = "2.0"; method = name; params = params })

  module _ {T W : Type 0}
      (select_ok : List (W → Result (Error F) T × W) → W → Result (Error F) T × W)
      (all_failed : Error F → String)
      (send : RetryConfig → RpcRequest Json → Url → W → Result (Error F) T × W)
      (once : RpcRequest Json → Url → W → Result (Error F) T × W) where
    wrapped : Result (Error F) T × W → Result (Error F) T × W
    wrapped (ok response, w) = (ok response, w)
    wrapped (err e, w) = (err (custom (all_failed e)), w)

    unfoldable pub send_request_race : RpcRequest Json → List Url → W → Result (Error F) T × W
    unfolding wrapped
    send_request_race rpc_request urls w = wrapped (select_ok (map (once rpc_request) urls) w)

    by_strategy : Strategy → RetryConfig → RpcRequest Json → List Url → W → Result (Error F) T × W
    by_strategy sequential config rpc_request urls w =
        send_request_sequential (send config rpc_request) urls w
    by_strategy race config rpc_request urls w = send_request_race rpc_request urls w

    to_targets :
        RequestBuilder → RpcRequest Json → Result (Error F) (List Url) → W → Result (Error F) T × W
    unfolding by_strategy
    to_targets self rpc_request (err e) w = (err e, w)
    to_targets self rpc_request (ok urls) w =
        by_strategy self.strategy (effective_retry_config self) rpc_request urls w

    unfoldable pub send_rpc_request : RequestBuilder → RpcRequest Json → W → Result (Error F) T × W
    unfolding to_targets
    send_rpc_request self rpc_request w = to_targets self rpc_request (get_target_urls self) w

    created : RequestBuilder → Result (Error F) (RpcRequest Json) → W → Result (Error F) T × W
    created self (err e) w = (err e, w)
    created self (ok rpc_request) w = send_rpc_request self rpc_request w

    -- `send_proof_input`, `get_pending_job_ids` and `get_proof` differ in the method and the parameters.
    unfoldable pub send_proof_input : Json → Json → RequestBuilder → W → Result (Error F) T × W
    unfolding created
    send_proof_input proof_input sequencer_address self w =
        created self
          (create_rpc_request send_proof_input_method (some (proof_input ∷ sequencer_address ∷ [])))
          w

    unfoldable pub get_pending_job_ids : RequestBuilder → W → Result (Error F) T × W
    unfolding created
    get_pending_job_ids self w = created self (create_rpc_request get_pending_job_ids_method none) w

    unfoldable pub get_proof : Json → RequestBuilder → W → Result (Error F) T × W
    unfolding created
    get_proof job_id self w =
        created self (create_rpc_request get_proof_method (some (job_id ∷ []))) w
