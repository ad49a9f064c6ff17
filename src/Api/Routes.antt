-- ===== src/Api/Routes.antt =====
-- internal/api/routes.go and internal/api/api.go: the four routes over the chi router, the server, and
-- the requests that it answers one after the other.
pub mod Caches
pub mod Keeps
use d8x_etherfi.Base.{ℕ, List, [], ◌∷◌, Option, none, some, Text, Result, ok, err, Error, String}
use Prim.Native.String.{◌++◌ as str_append}
use d8x_etherfi.Base.Int.{ℤ}
use d8x_etherfi.Base.Dict.{Dict}
use d8x_etherfi.Utils.Conv.{BigFloat}
use d8x_etherfi.Utils.Payload.{Payload}
use d8x_etherfi.Etherfi.App.{App}
use d8x_etherfi.Etherfi.Queries.{Env}
use d8x_etherfi.Etherfi.Combine
use d8x_etherfi.Etherfi.Combine.{Balance}
use d8x_etherfi.Etherfi.Store.{Db}
use d8x_etherfi.Etherfi.Request.{Select, DbAnswers}
use d8x_etherfi.Api.{Checked, Atoi, Float, Endpoint, on_etherfi_apy}
use d8x_etherfi.Api.Holders.{HolderResponse, on_holder_contracts}
use d8x_etherfi.Api.Serve.{get_balances, post_balances}

-- `formatError`: the message in JSON, or the text of the error of that.
abbrev pub format_error : (String → Result Text) → (Error → Text) → String → Text
format_error marshal text error_msg = elim (marshal error_msg) [
  | err e ↦ text e
  | ok json_response ↦ json_response
]

-- What a handler reads of a request.
pub record HttpRequest : Type 0 where
  pub block_number : Text
  pub addresses : List Text
  -- what `json.Unmarshal` makes of the body
  pub body : Result Payload

-- What stands around the service while it answers: the tables, the answers of the database, the
-- messages of the goroutines, the clock, and the endpoint for the yield.
pub record Moment {F : Type 0} (float : Float F) : Type 0 where
  pub db : Db
  pub delegates_error : Option Error
  pub transfers_error : Option Error
  pub answers : DbAnswers
  pub select : Select
  pub now : ℤ
  pub endpoint : Endpoint float

-- chi: a router, the registration of a handler for a path, the handler of a request, and the answer
-- to one that has none.
pub record Chi (R H : Type 0) : Type 0 where
  pub new_router : R
  pub get : R → String → H → R
  pub post : R → String → H → R
  pub route : R → String → String → Option H
  pub not_found : String → String → Checked Text

-- What the handlers take from outside.
pub record Library (B F : Type 0) : Type 0 where
  pub combine : Combine.Float F
  pub range : Dict Text ℤ → List (Text × ℤ)
  pub yield : Float F
  pub big : BigFloat B F
  pub atoi : Atoi
  pub marshal_balances : List (Balance F) → Result Text
  pub marshal_holders : HolderResponse F → Result Text

module _ {W Client Contract Caller Erc20 Manager B F : Type 0}
    (env : Env W Client Contract Caller Erc20 Manager) (library : Library B F) where
  abbrev pub Handler : Type 0
  Handler = Moment library.yield → HttpRequest → App F → W → Option (Checked Text) × App F × W

  -- The four closures. A panic leaves the app as it is by then: of `onEtherfiApy`, with its timestamp.
  abbrev pub contracts : Handler
  contracts moment req app w =
      let (res, w') =
        on_holder_contracts env app library.big library.marshal_holders library.atoi
          req.block_number w in
      (res, app, w')

  abbrev pub etherfi_apy : Handler
  etherfi_apy moment req app w =
      elim (on_etherfi_apy library.yield moment.now moment.endpoint app) [
        | none ↦ (none, record app { etherfi_apy_ts = moment.now }, w)
        | some (res, app') ↦ (some res, app', w)
      ]

  abbrev pub of_get_balances : Handler
  of_get_balances moment req app w =
      get_balances env moment.db library.combine library.range moment.select moment.answers
        library.marshal_balances app moment.delegates_error moment.transfers_error library.atoi
        req.block_number req.addresses w

  abbrev pub of_balances : Handler
  of_balances moment req app w =
      post_balances env moment.db library.combine library.range moment.select moment.answers
        library.marshal_balances app moment.delegates_error moment.transfers_error req.body w

  module _ {R : Type 0} (chi : Chi R Handler) where
    unfoldable pub register_routes : R → R
    register_routes router =
        chi.post
          (chi.get (chi.get (chi.get router "/contracts" contracts) "/etherfi-apy" etherfi_apy)
            "/get-balances" of_get_balances)
          "/balances" of_balances

    -- `StartApiServer`, which ends with the error of `ListenAndServe`.
    unfoldable pub start_api_server :
        (Text → Text → Text) → (Text → R → Error) → Text → Text → Error
    unfolding register_routes
    start_api_server join_host_port listen_and_serve host port =
        str_append "api server is shutting down"
          (listen_and_serve (join_host_port host port) (register_routes chi.new_router))

    -- The answer to one request, by its method and path.
    unfoldable pub handle :
        R
        → String
        → String
        → Moment library.yield
        → HttpRequest
        → App F
        → W
        → Option (Checked Text) × App F × W
    handle router method path moment req app w = elim (chi.route router method path) [
      | none ↦ (some (chi.not_found method path), app, w)
      | some handler ↦ handler moment req app w
    ]

    -- The requests in the order in which they come.
    unfoldable pub handle_all :
        R
        → List (String × String × Moment library.yield × HttpRequest)
        → App F
        → W
        → List (Option (Checked Text)) × App F × W
    unfolding handle
    handle_all router [] app w = ([], app, w)
    handle_all router ((method, path, moment, req) ∷ rs) app w =
        let (res, app', w') = handle router method path moment req app w in
        let (answered, app'', w'') = handle_all router rs app' w' in (res ∷ answered, app'', w'')
